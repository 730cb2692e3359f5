-- ===== src/Recorder/Counts.antt =====
-- No exchange is lost without being counted, and no buffer outgrows its size.
use restest.Base.{
  ℕ, zero, suc, ◌+◌, ◌-◌, ◌≤◌, ◌<◌, ◌≡◌, refl, sym, ap, ◌⊎◌, subst, Bool, true, false, List, [],
  ◌∷◌, ◌++◌, arith, length, length-append, ltb, not, ◌&&◌, ◌==◌, Bool-cases, inl, inr,
  if◌then◌else◌,
}
use restest.Recorder.{
  Options, Phase, or_default, recorder_drop_report, default_batch, Recorder, new_recorder,
  record_exchange, lost, flush, report_drops, drain,
}

abbrev pub sum : List ℕ → ℕ
sum [] = 0
sum (n ∷ ns) = n + sum ns

module _ (Exchange : Type 0) where
  -- The counts of a recorder to which `n` exchanges were handed.
  pub record Counted (n : ℕ) (r : Recorder Exchange) : Type 0 where
    pub all : n ≡ length r.written + length r.batch + length r.queue + lost Exchange r
    pub warnings : sum r.warned ≡ r.reported
    pub known : r.reported ≤ lost Exchange r
    pub queue_bound : length r.queue ≤ r.opts.buffer
    pub some_batch : 0 < r.opts.batch

  or_default_pos : (n d : ℕ) → 0 < d → 0 < or_default n d
  or_default_pos zero d h = h
  or_default_pos (suc n) d h = omega arith

  pub new_recorder-Counted : (opts : Options) → Counted 0 (new_recorder Exchange opts)
  unfolding new_recorder lost
  new_recorder-Counted opts = record {
    all = refl;
    warnings = refl;
    known = omega arith;
    queue_bound = omega arith;
    some_batch = or_default_pos opts.batch default_batch (omega arith);
  }

  pub record_exchange-Counted :
      (n : ℕ) (ex : Exchange) (r : Recorder Exchange)
      → Counted n r
      → Counted (n + 1) (record_exchange Exchange ex r)
  unfolding record_exchange lost
  record_exchange-Counted n ex r h = elim (Bool-cases (ltb (length r.queue) r.opts.buffer)) [
    | inl e ↦ rw e (record {
      all = omega (arith, h.all, length-append r.queue (ex ∷ []));
      warnings = h.warnings;
      known = h.known;
      queue_bound = ground (arith, h.queue_bound, length-append r.queue (ex ∷ []));
      some_batch = h.some_batch;
    })
    | inr e ↦ rw e (record {
      all = omega (arith, h.all);
      warnings = h.warnings;
      known = omega (arith, h.known);
      queue_bound = h.queue_bound;
      some_batch = h.some_batch;
    })
  ]

  -- The end of `flush` on a batch that is not empty.
  unfoldable pub write_out : Bool → Recorder Exchange → Recorder Exchange
  write_out stored r =
      if stored
      then record r { written = r.written ++ r.batch; batch = [] }
      else record r { failed = r.failed + length r.batch; batch = [] }

  write_out-Counted :
      (n : ℕ) (stored : Bool) (r : Recorder Exchange) → Counted n r → Counted n (write_out stored r)
  unfolding write_out lost
  write_out-Counted n true r h = record {
    all = omega (arith, h.all, length-append r.written r.batch);
    warnings = h.warnings;
    known = h.known;
    queue_bound = h.queue_bound;
    some_batch = h.some_batch;
  }
  write_out-Counted n false r h = record {
    all = omega (arith, h.all);
    warnings = h.warnings;
    known = omega (arith, h.known);
    queue_bound = h.queue_bound;
    some_batch = h.some_batch;
  }

  -- A batch that is flushed is empty, and nothing else of the queue or the settings has changed.
  pub record Flushed (r r' : Recorder Exchange) : Type 0 where
    pub batch : r'.batch ≡ []
    pub queue : r'.queue ≡ r.queue
    pub opts : r'.opts ≡ r.opts
    pub phase : r'.phase ≡ r.phase

  List-cases :
      (xs : List Exchange) → (xs ≡ []) ⊎ ((x : Exchange) × (ys : List Exchange) × (xs ≡ x ∷ ys))
  List-cases [] = inl refl
  List-cases (x ∷ xs) = inr (x, xs, refl)

  pub flush-cases :
      (stored : Bool) (r : Recorder Exchange)
      → ((r.batch ≡ []) × (flush Exchange stored r ≡ r))
        ⊎ (flush Exchange stored r ≡ write_out stored r)
  unfolding flush write_out
  flush-cases stored r = elim (List-cases r.batch) [
    | inl e ↦ inl (e, ground arith)
    | inr (x, xs, e) ↦ inr (ground arith)
  ]

  write_out-Flushed : (stored : Bool) (r : Recorder Exchange) → Flushed r (write_out stored r)
  unfolding write_out
  write_out-Flushed true r = record { batch = refl; queue = refl; opts = refl; phase = refl }
  write_out-Flushed false r = record { batch = refl; queue = refl; opts = refl; phase = refl }

  pub flush-Counted :
      (n : ℕ) (stored : Bool) (r : Recorder Exchange)
      → Counted n r
      → Counted n (flush Exchange stored r) × Flushed r (flush Exchange stored r)
  flush-Counted n stored r h = elim (flush-cases stored r) [
    | inl (e, k) ↦
        subst (λ q. Counted n q × Flushed r q) (sym k)
          (h, record { batch = e; queue = refl; opts = refl; phase = refl })
    | inr k ↦
        subst (λ q. Counted n q × Flushed r q) (sym k)
          (write_out-Counted n stored r h, write_out-Flushed stored r)
  ]

  -- The end of `reportDrops`, when a warning is due.
  unfoldable pub warn : ℕ → Recorder Exchange → Recorder Exchange
  warn now r = record r {
    reported = lost Exchange r;
    last_warn = now;
    warned = (lost Exchange r - r.reported) ∷ r.warned;
  }

  pub report_drops-cases :
      (force : Bool) (now : ℕ) (r : Recorder Exchange)
      → (report_drops Exchange force now r ≡ r) ⊎ (report_drops Exchange force now r ≡ warn now r)
  unfolding report_drops warn
  report_drops-cases force now r = elim (Bool-cases (lost Exchange r == r.reported)) [
    | inl e ↦ inl (ground arith)
    | inr e ↦ elim (Bool-cases (not force && ltb (now - r.last_warn) recorder_drop_report)) [
      | inl k ↦ inl (ground arith)
      | inr k ↦ inr (ground arith)
    ]
  ]

  -- Whatever warnings are due, the buffers and the counters stay as they are.
  pub record Same (r r' : Recorder Exchange) : Type 0 where
    pub batch : r'.batch ≡ r.batch
    pub queue : r'.queue ≡ r.queue
    pub opts : r'.opts ≡ r.opts
    pub phase : r'.phase ≡ r.phase

  warn-Counted : (n now : ℕ) (r : Recorder Exchange) → Counted n r → Counted n (warn now r)
  unfolding warn lost
  warn-Counted n now r h = record {
    all = h.all;
    warnings = omega (arith, h.warnings, h.known);
    known = omega arith;
    queue_bound = h.queue_bound;
    some_batch = h.some_batch;
  }

  pub report_drops-Counted :
      (n : ℕ) (force : Bool) (now : ℕ) (r : Recorder Exchange)
      → Counted n r
      → Counted n (report_drops Exchange force now r) × Same r (report_drops Exchange force now r)
  unfolding warn
  report_drops-Counted n force now r h = elim (report_drops-cases force now r) [
    | inl e ↦
        subst (λ q. Counted n q × Same r q) (sym e)
          (h, record { batch = refl; queue = refl; opts = refl; phase = refl })
    | inr e ↦
        subst (λ q. Counted n q × Same r q) (sym e)
          (warn-Counted n now r h, record { batch = refl; queue = refl; opts = refl; phase = refl })
  ]

  -- A report that ignores the interval leaves no loss unreported.
  pub report_drops-forced :
      (now : ℕ) (r : Recorder Exchange)
      → (report_drops Exchange true now r).reported
        ≡ lost Exchange (report_drops Exchange true now r)
  unfolding report_drops lost
  report_drops-forced now r = ground arith

  -- With the exchange at the head of the queue moved to the batch.
  pub drain-Counted :
      (n : ℕ) (ex : Exchange) (exs : List Exchange) (r : Recorder Exchange)
      → r.queue ≡ ex ∷ exs
      → Counted n r
      → Counted n (drain Exchange ex (record r { queue = exs }))
  unfolding lost drain
  drain-Counted n ex exs r e h = record {
    all = omega (arith, h.all, length-append r.batch (ex ∷ []), ap length e);
    warnings = h.warnings;
    known = h.known;
    queue_bound = omega (arith, h.queue_bound, ap length e);
    some_batch = h.some_batch;
  }

  -- The counts do not depend on where `Run` is.
  pub moved-Counted :
      (n : ℕ) (p : Phase) (r : Recorder Exchange) → Counted n r → Counted n (record r { phase = p })
  unfolding lost
  moved-Counted n p r h = record {
    all = h.all;
    warnings = h.warnings;
    known = h.known;
    queue_bound = h.queue_bound;
    some_batch = h.some_batch;
  }
