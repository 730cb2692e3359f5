-- ===== src/Recorder/Ending.antt =====
-- internal/core/recorder.go, `Run` and `drain`: the end of `Run`, with handlers that go on recording.
use restest.Base.{ℕ, ◌+◌, ◌≤◌, ◌≡◌, ◌⊎◌, List, [], length}
use restest.Recorder.{drained, stopped, Recorder, lost}
use restest.Recorder.Counts.{sum}

module _ (Exchange : Type 0) where
  -- `m` exchanges after the queue was found empty.
  abbrev IsEnding : ℕ → Recorder Exchange → Type 0
  IsEnding m r =
      (length r.queue ≤ m)
      × ((r.phase ≡ drained)
          ⊎ ((r.phase ≡ stopped) × (r.batch ≡ []) × (lost Exchange r ≤ r.reported + m)))

  -- What `Run` leaves behind, `given` exchanges recorded before the queue was found empty, and `more`
  -- since then.
  pub record IsComplete (given more : List Exchange) (r : Recorder Exchange) : Type 0 where
    pub batch : r.batch ≡ []
    pub before : length given ≤ length r.written + lost Exchange r
    pub since : length r.queue ≤ length more
    pub all : length given + length more ≡ length r.written + lost Exchange r + length r.queue
    pub told : lost Exchange r ≤ sum r.warned + length more
