-- ===== src/Statepush/Emitter/Examples.antt =====
-- A run of the emitter.
use turborg.Base.{refl, ◌≤◌, ◌≡◌, true, false, ◌⊎◌, inr}
use turborg.Statepush.Emitter.{
  collecting, fire, notify_change, outside, own, receive, sending, start, waiting, State, Own,
  Reachable, new_emitter,
}
use turborg.Statepush.Emitter.Updates.{quiet_is_current}
use turborg.Statepush.Emitter.Progress.{none_yet, then_one, comes_to_rest, OwnSteps}

-- The first state is notified, gathered and sent.
abbrev notified : State
notified = record { version = 1; unnotified = false; notify = true; phase = waiting; built = 0 }

abbrev gathering : State
gathering = record notified { notify = false; phase = collecting }

abbrev under_way : State
under_way = record gathering { phase = sending; built = 1 }

first_notified : Reachable true notified
unfolding new_emitter
first_notified = outside (new_emitter 0) notified (start 0) (notify_change (new_emitter 0))

sent : Reachable true under_way
sent =
    own gathering under_way
      (own notified gathering first_notified (receive notified refl refl refl))
      (fire gathering refl)

quiet_is_current_example : under_way.built ≡ under_way.version
quiet_is_current_example = quiet_is_current true under_way sent refl refl (inr refl)

two_steps : OwnSteps true notified 2 under_way
two_steps =
    then_one 1 gathering under_way
      (then_one 0 notified gathering none_yet (receive notified refl refl refl))
      (fire gathering refl)

comes_to_rest_example :
    (2 ≤ 5) × ((under_way.built ≡ notified.version) ⊎ ((u : State) × Own true under_way u))
comes_to_rest_example = comes_to_rest true notified under_way 2 first_notified refl refl two_steps
