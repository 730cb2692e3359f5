-- ===== src/Recorder/Reach.antt =====
-- Every step of a recorder keeps its counts, from the start to the end of `Run` and behind it.
use restest.Base.{
  ℕ, ◌+◌, ◌<◌, ◌≡◌, refl, ap, ◌∙◌, subst, ◌⊎◌, Bool, true, false, List, [], ◌∷◌, ◌++◌, arith,
  length, length-append, leb, Bool-cases, inl, inr,
}
use restest.Recorder.{
  Options, running, draining, drained, stopped, Recorder, new_recorder, record_exchange, lost,
  flush, drain, receive, tick, finish, Step, recording, receiving, ticking, ending, taking, emptied,
  finishing, Later, at_once, and_step, Reached,
}
use restest.Recorder.Counts.{
  Counted, new_recorder-Counted, record_exchange-Counted, flush-Counted, report_drops-Counted,
  report_drops-forced, drain-Counted, moved-Counted,
}

module _ (Exchange : Type 0) where
  -- In its loop `Run` holds a batch that is shorter than the size at which it is written, and none
  -- when it has returned.
  abbrev pub IsHeld : Recorder Exchange → Type 0
  IsHeld r =
      ((r.phase ≡ running) × (length r.batch < r.opts.batch))
      ⊎ ((r.phase ≡ draining) ⊎ ((r.phase ≡ drained) ⊎ ((r.phase ≡ stopped) × (r.batch ≡ []))))

  abbrev pub Steady : ℕ → Recorder Exchange → Type 0
  Steady n r = Counted Exchange n r × IsHeld r

  IsHeld-running :
      (r : Recorder Exchange) → r.phase ≡ running → IsHeld r → length r.batch < r.opts.batch
  IsHeld-running r on (inl (_, k)) = k
  IsHeld-running r on (inr (inl e)) = absurd (ground arith)
  IsHeld-running r on (inr (inr (inl e))) = absurd (ground arith)
  IsHeld-running r on (inr (inr (inr (e, _)))) = absurd (ground arith)

  receive-Steady :
      (n : ℕ) (stored : Bool) (ex : Exchange) (exs : List Exchange) (r : Recorder Exchange)
      → r.phase ≡ running
      → r.queue ≡ ex ∷ exs
      → Steady n r
      → Steady n (receive Exchange stored ex (record r { queue = exs }))
  unfolding receive drain
  receive-Steady n stored ex exs r on e (h, k) =
      let moved = drain-Counted Exchange n ex exs r e h in
      let r' : Recorder Exchange = record r { queue = exs; batch = r.batch ++ ex ∷ [] } in
      elim (Bool-cases (leb r.opts.batch (length (r.batch ++ ex ∷ [])))) [
        | inr b ↦ rw b (moved, inl (on, ground arith))
        | inl b ↦
            let (counted, flushed) = flush-Counted Exchange n stored r' moved in
            rw b (
              counted,
              inl (
                flushed.phase ∙ on,
                omega (
                  arith,
                  ap length flushed.batch,
                  ap (λ o. o.batch) flushed.opts,
                  moved.some_batch,
                ),
              ),
            )
      ]

  tick-Steady :
      (n : ℕ) (stored : Bool) (now : ℕ) (r : Recorder Exchange)
      → r.phase ≡ running
      → Steady n r
      → Steady n (tick Exchange stored now r)
  unfolding tick
  tick-Steady n stored now r on (h, k) =
      let (counted, flushed) = flush-Counted Exchange n stored r h in
      let (reported, kept) =
        report_drops-Counted Exchange n false now (flush Exchange stored r) counted in
      (
        reported,
        inl (
          kept.phase ∙ flushed.phase ∙ on,
          omega (
            arith,
            ap length kept.batch,
            ap length flushed.batch,
            ap (λ o. o.batch) flushed.opts,
            ap (λ o. o.batch) kept.opts,
            h.some_batch,
          ),
        ),
      )

  -- After `Run` has returned: no batch is left, the queue is as it was, and every loss is reported.
  pub record Finished (r r' : Recorder Exchange) : Type 0 where
    pub batch : r'.batch ≡ []
    pub queue : r'.queue ≡ r.queue
    pub told : r'.reported ≡ lost Exchange r'
    pub phase : r'.phase ≡ stopped

  pub finish-Counted :
      (n : ℕ) (stored : Bool) (now : ℕ) (r : Recorder Exchange)
      → Counted Exchange n r
      → Counted Exchange n (finish Exchange stored now r)
        × Finished r (finish Exchange stored now r)
  unfolding finish lost
  finish-Counted n stored now r h =
      let (counted, flushed) = flush-Counted Exchange n stored r h in
      let q = flush Exchange stored r in
      let (reported, kept) = report_drops-Counted Exchange n true now q counted in
      (
        moved-Counted Exchange n stopped _ reported,
        record {
          batch = kept.batch ∙ flushed.batch;
          queue = kept.queue ∙ flushed.queue;
          told = report_drops-forced Exchange now q;
          phase = refl;
        },
      )

  pub record_exchange-kept :
      (ex : Exchange) (r : Recorder Exchange)
      → ((record_exchange Exchange ex r).batch ≡ r.batch)
        × ((record_exchange Exchange ex r).opts ≡ r.opts)
        × ((record_exchange Exchange ex r).phase ≡ r.phase)
  unfolding record_exchange
  record_exchange-kept ex r = ground arith

  IsHeld-kept :
      (r r' : Recorder Exchange)
      → r'.batch ≡ r.batch
      → r'.opts ≡ r.opts
      → r'.phase ≡ r.phase
      → IsHeld r
      → IsHeld r'
  IsHeld-kept r r' b o p (inl (e, k)) =
      inl (p ∙ e, omega (arith, ap length b, ap (λ x. x.batch) o, k))
  IsHeld-kept r r' b o p (inr (inl e)) = inr (inl (p ∙ e))
  IsHeld-kept r r' b o p (inr (inr (inl e))) = inr (inr (inl (p ∙ e)))
  IsHeld-kept r r' b o p (inr (inr (inr (e, k)))) = inr (inr (inr (p ∙ e, b ∙ k)))

  drain-phase : (ex : Exchange) (r : Recorder Exchange) → (drain Exchange ex r).phase ≡ r.phase
  unfolding drain
  drain-phase ex r = refl

  silent : (n : ℕ) (r : Recorder Exchange) → Steady n r → Steady (n + 0) r
  silent n r = subst (λ m. Steady m r) (omega arith)

  Step-Steady :
      {more : List Exchange} {r r' : Recorder Exchange} (n : ℕ)
      → Step Exchange r more r'
      → Steady n r
      → Steady (n + length more) r'
  Step-Steady n (recording ex r) (h, k) =
      let (b, o, p) = record_exchange-kept ex r in
      (
        record_exchange-Counted Exchange n ex r h,
        IsHeld-kept r (record_exchange Exchange ex r) b o p k,
      )
  Step-Steady n (receiving stored ex exs r on e) h =
      silent n _ (receive-Steady n stored ex exs r on e h)
  Step-Steady n (ticking stored now r on) h = silent n _ (tick-Steady n stored now r on h)
  Step-Steady n (ending r on) (h, k) =
      silent n (record r { phase = draining })
        (moved-Counted Exchange n draining r h, inr (inl refl))
  Step-Steady n (taking ex exs r on e) (h, k) = silent n _ (
    drain-Counted Exchange n ex exs r e h,
    inr (inl (drain-phase ex (record r { queue = exs }) ∙ on)),
  )
  Step-Steady n (emptied r on e) (h, k) =
      silent n (record r { phase = drained })
        (moved-Counted Exchange n drained r h, inr (inr (inl refl)))
  Step-Steady n (finishing stored now r on) (h, k) =
      let (counted, finished) = finish-Counted n stored now r h in
      silent n _ (counted, inr (inr (inr (finished.phase, finished.batch))))

  pub Later-Steady :
      (n : ℕ) (r r' : Recorder Exchange) (given : List Exchange)
      → Steady n r
      → Later Exchange r given r'
      → Steady (n + length given) r'
  Later-Steady n r r' [] h at_once = silent n r h
  Later-Steady n r r' given h (and_step {given = old} {more = more} {r' = q} later s) =
      subst (λ m. Steady m r')
        (let e : n + length old + length more ≡ n + length (old ++ more) =
            omega (arith, length-append old more) in
          e)
        (Step-Steady (n + length old) s (Later-Steady n r q old h later))

  -- However the handlers and the recorder take turns and whichever writes fail: every exchange handed
  -- to the recorder was written, waits, or is counted as lost; the warnings so far add up to the
  -- losses reported; the queue is within its capacity; and the batch is shorter than its size while
  -- `Run` is in its loop, and empty when it has returned.
  pub Reached-Steady :
      (opts : Options) (given : List Exchange) (r : Recorder Exchange)
      → Reached Exchange opts given r
      → Steady (length given) r
  unfolding new_recorder
  Reached-Steady opts given r reached =
      let start = new_recorder-Counted Exchange opts in
      let e : 0 + length given ≡ length given = omega arith in
      subst (λ m. Steady m r) e
        (Later-Steady 0 (new_recorder Exchange opts) r given (start, inl (refl, start.some_batch))
          reached)
