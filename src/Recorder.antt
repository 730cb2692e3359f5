-- ===== src/Recorder.antt =====
-- internal/core/recorder.go: exchanges on their way from the request handlers to the log. The
-- handlers and the one goroutine of `Run` take turns in any order: each turn is a step.
pub mod Counts
pub mod Reach
pub mod Ending
pub mod Order
mod Tests
use restest.Base.{
  ℕ, zero, suc, ◌+◌, ◌-◌, ◌*◌, ◌≡◌, Bool, true, false, not, ◌&&◌, List, [], ◌∷◌, ◌++◌, leb, ltb,
  ◌==◌, if◌then◌else◌, length,
}

abbrev pub second : ℕ
second = 1000000000

abbrev pub default_buffer : ℕ
default_buffer = 1000

abbrev pub default_batch : ℕ
default_batch = 200

abbrev pub recorder_drop_report : ℕ
recorder_drop_report = 10 * second

pub record Options : Type 0 where
  pub buffer : ℕ
  pub batch : ℕ

abbrev pub or_default : ℕ → ℕ → ℕ
or_default zero d = d
or_default (suc n) d = suc n

-- Where `Run` is: in its loop, in `drain` after the end of the context, behind it, or returned.
pub data Phase : Type 0 where
  running draining drained stopped : Phase

-- The exchanges are not looked into.
module _ (Exchange : Type 0) where
  -- `batch` is the variable of `Run`, `phase` where it is, `written` what the writer has stored, and
  -- `warned` the counts of the warnings, the last first.
  pub record Recorder : Type 0 where
    pub opts : Options
    pub queue : List Exchange
    pub batch : List Exchange
    pub dropped : ℕ
    pub failed : ℕ
    pub reported : ℕ
    pub last_warn : ℕ
    pub phase : Phase
    pub written : List Exchange
    pub warned : List ℕ

  unfoldable pub new_recorder : Options → Recorder
  new_recorder opts = record {
    opts = record {
      buffer = or_default opts.buffer default_buffer;
      batch = or_default opts.batch default_batch;
    };
    queue = [];
    batch = [];
    dropped = 0;
    failed = 0;
    reported = 0;
    last_warn = 0;
    phase = running;
    written = [];
    warned = [];
  }

  -- `Record`
  unfoldable pub record_exchange : Exchange → Recorder → Recorder
  record_exchange ex r =
      if ltb (length r.queue) r.opts.buffer
      then record r { queue = r.queue ++ ex ∷ [] }
      else record r { dropped = suc r.dropped }

  -- `Dropped`
  unfoldable pub lost : Recorder → ℕ
  lost r = r.dropped + r.failed

  -- `flush`; the Boolean is whether the writer stored the batch. A write that fails stores nothing of
  -- it, as a COPY does.
  unfoldable pub flush : Bool → Recorder → Recorder
  flush stored r = elim r.batch [
    | [] ↦ r
    | ex ∷ exs ↦
        if stored
        then record r { written = r.written ++ r.batch; batch = [] }
        else record r { failed = r.failed + length r.batch; batch = [] }
  ]

  -- `reportDrops` at the instant `now`
  unfoldable pub report_drops : Bool → ℕ → Recorder → Recorder
  unfolding lost
  report_drops force now r =
      if lost r == r.reported
      then r
      else if not force && ltb (now - r.last_warn) recorder_drop_report
      then r
      else record r {
        reported = lost r;
        last_warn = now;
        warned = (lost r - r.reported) ∷ r.warned;
      }

  -- One turn of the loop of `drain`: an exchange off the queue.
  unfoldable pub drain : Exchange → Recorder → Recorder
  drain ex r = record r { batch = r.batch ++ ex ∷ [] }

  -- The cases of the `select` in `Run`: an exchange taken off the queue,
  unfoldable pub receive : Bool → Exchange → Recorder → Recorder
  unfolding flush
  receive stored ex r =
      let r' = record r { batch = r.batch ++ ex ∷ [] } in
      if leb r.opts.batch (length r'.batch) then flush stored r' else r'

  -- a tick,
  unfoldable pub tick : Bool → ℕ → Recorder → Recorder
  unfolding flush report_drops
  tick stored now r = report_drops false now (flush stored r)

  -- and the end of the context, at which the queue is drained, one exchange after the other, while the
  -- handlers go on recording. Once it is found empty, what is left is written, all losses are
  -- reported, and `Run` returns. No handler sees the batch, so that one that records during the write
  -- could as well have done so before it.
  unfoldable pub finish : Bool → ℕ → Recorder → Recorder
  unfolding flush report_drops
  finish stored now r = record (report_drops true now (flush stored r)) { phase = stopped }

  pub data Step : Recorder → List Exchange → Recorder → Type 0 where
    recording : (ex : Exchange) (r : Recorder) → Step r (ex ∷ []) (record_exchange ex r)
    receiving :
        (stored : Bool) (ex : Exchange) (exs : List Exchange) (r : Recorder)
        → r.phase ≡ running
        → r.queue ≡ ex ∷ exs
        → Step r [] (receive stored ex (record r { queue = exs }))
    ticking :
        (stored : Bool) (now : ℕ) (r : Recorder) → r.phase ≡ running → Step r [] (tick stored now r)
    ending : (r : Recorder) → r.phase ≡ running → Step r [] (record r { phase = draining })
    taking :
        (ex : Exchange) (exs : List Exchange) (r : Recorder)
        → r.phase ≡ draining
        → r.queue ≡ ex ∷ exs
        → Step r [] (drain ex (record r { queue = exs }))
    emptied :
        (r : Recorder)
        → r.phase ≡ draining
        → r.queue ≡ []
        → Step r [] (record r { phase = drained })
    finishing :
        (stored : Bool) (now : ℕ) (r : Recorder)
        → r.phase ≡ drained
        → Step r [] (finish stored now r)

  -- The recorders that come about from a recorder, with the exchanges handed to `Record` meanwhile.
  pub data Later (r : Recorder) : List Exchange → Recorder → Type 0 where
    at_once : Later r [] r
    and_step :
        {given more : List Exchange} {r' r'' : Recorder}
        → Later r given r'
        → Step r' more r''
        → Later r (given ++ more) r''

  -- The recorders that come about, with the exchanges handed to `Record` so far, in their order.
  abbrev pub Reached : Options → List Exchange → Recorder → Type 0
  Reached opts given r = Later (new_recorder opts) given r
