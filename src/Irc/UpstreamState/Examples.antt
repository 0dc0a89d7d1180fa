-- ===== src/Irc/UpstreamState/Examples.antt =====
-- A connection that is lost and found, and the lines that a server closes one with.
use turborg.Base.Text.Split.{trim_space}
use turborg.Base.{
  List, [], arith, or_zero, refl, some, str_beq, true, ℕ, ◌++◌, ◌∷◌, ◌≡◌, nat_eq, str_eq,
}
use turborg.Base.Map.{insert, lookup}
use turborg.Base.Text.{codes}
use turborg.Irc.Protocol.{format_command}
use turborg.Irc.UpstreamState.{
  connecting, disconnected_nick_unavailable, disconnected_transient, registered,
  UpstreamStateMachine, new_upstream_state_machine, classify_numeric, classify_ban_reason,
  classify_disconnect_message, subscribe,
}
use turborg.Irc.UpstreamState.Transitions.{
  committing, subscribing, unsubscribing, Call, IsChain, run, run-IsChain, subscriber_stays,
}
use turborg.Irc.UpstreamState.Messages.{disconnect_reason}

abbrev machine : UpstreamStateMachine ℕ
machine = (subscribe 7 (new_upstream_state_machine 100)).0

abbrev calls : List (Call ℕ)
calls =
    committing connecting [] 110
    ∷ subscribing 8
    ∷ committing connecting [] 115
    ∷ committing registered [] 120
    ∷ unsubscribing 2
    ∷ committing disconnected_transient (codes "reset") 130
    ∷ []

nick_taken : classify_numeric (codes "433") ≡ some disconnected_nick_unavailable
unfolding classify_numeric str_beq
nick_taken = refl

run-IsChain_example : IsChain machine.state (run calls machine).1 (run calls machine).0.state
run-IsChain_example = run-IsChain calls machine

subscriber_stays_example : lookup 1 (run calls machine).0.subscribers ≡ some 7
unfolding subscribe new_upstream_state_machine
subscriber_stays_example =
    subscriber_stays 7 1 calls machine (omega arith) (unfold lookup insert in refl)
      ((λ e. absurd (ground arith)), tt)

disconnect_reason_example :
    classify_disconnect_message
      (format_command (codes "ERROR") [] (codes "Bye " ++ b'(' ∷ (codes "Gone" ++ b')' ∷ [])) true)
    ≡ some (
      or_zero (classify_ban_reason (trim_space (codes "Gone"))) disconnected_transient,
      trim_space (codes "Gone"),
    )
disconnect_reason_example =
    disconnect_reason (codes "Bye ") (codes "Gone") refl (refl, (refl, (refl, (refl, tt))))
      (refl, (refl, (refl, (refl, tt))))
