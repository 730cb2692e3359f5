-- ===== src/Recorder/Tests.antt =====
-- A run of a small recorder, and the theorems at it.
use restest.Base.{ℕ, ◌≡◌, refl, true, [], ◌∷◌}
use restest.Recorder.{
  running, draining, drained, drain, Options, Recorder, new_recorder, record_exchange, receive,
  finish, recording, receiving, Reached, at_once, and_step,
}
use restest.Recorder.Reach.{Steady, Reached-Steady}
use restest.Recorder.Order.{IsSublist, content, Reached-IsSublist}

abbrev small : Options
small = record { buffer = 2; batch = 2 }

abbrev one_queued : Recorder ℕ
one_queued = record_exchange ℕ 7 (new_recorder ℕ small)

abbrev one_taken : Recorder ℕ
one_taken = receive ℕ true 7 (record one_queued { queue = [] })

abbrev four_given : Recorder ℕ
four_given = record_exchange ℕ 10 (record_exchange ℕ 9 (record_exchange ℕ 8 one_taken))

head_queued : one_queued.queue ≡ 7 ∷ []
unfolding record_exchange new_recorder
head_queued = refl

still_running : one_queued.phase ≡ running
unfolding record_exchange new_recorder
still_running = refl

four-Reached : Reached ℕ small (7 ∷ 8 ∷ 9 ∷ 10 ∷ []) four_given
four-Reached =
    and_step
      (and_step
        (and_step
          (and_step (and_step at_once (recording 7 (new_recorder ℕ small)))
            (receiving true 7 [] one_queued still_running head_queued))
          (recording 8 _))
        (recording 9 _))
      (recording 10 _)

one_dropped : four_given.dropped ≡ 1
unfolding record_exchange new_recorder receive
one_dropped = refl

-- The end of a run: two exchanges are drained, one comes after that and is not written.
abbrev drained_one : Recorder ℕ
drained_one = drain ℕ 8 (record four_given { phase = draining; queue = 9 ∷ [] })

abbrev drained_two : Recorder ℕ
drained_two = drain ℕ 9 (record drained_one { queue = [] })

abbrev late : Recorder ℕ
late = record_exchange ℕ 11 (record drained_two { phase = drained })

last_written : (finish ℕ true 5 late).written ≡ 7 ∷ 8 ∷ 9 ∷ []
unfolding record_exchange new_recorder receive finish drain
last_written = refl

last_queued : (finish ℕ true 5 late).queue ≡ 11 ∷ []
unfolding record_exchange new_recorder receive finish drain
last_queued = refl

Reached-Steady_example : Steady ℕ 4 four_given
Reached-Steady_example = Reached-Steady ℕ small (7 ∷ 8 ∷ 9 ∷ 10 ∷ []) four_given four-Reached

Reached-IsSublist_example : IsSublist (content ℕ four_given) (7 ∷ 8 ∷ 9 ∷ 10 ∷ [])
Reached-IsSublist_example = Reached-IsSublist ℕ small (7 ∷ 8 ∷ 9 ∷ 10 ∷ []) four_given four-Reached
