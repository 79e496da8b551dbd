-- ===== src/Notify/Broadcast.antt =====
-- internal/pkg/nfnNotify/server.go: the message of a provider network for the agents of all nodes.
use icn_nodus.Common.{if◌then◌else◌, String, ◌≡◌, refl, ◌∙◌, Bool, true, false, List, [], ◌∷◌, ◌==◌}
use icn_nodus.Api.{ProviderNetwork}
use icn_nodus.Api.Messages.{Message}
use icn_nodus.Effect.{Event, message_sent, Env, World, done, M, ◌>>=◌, pure, attempt, ask}
use icn_nodus.Effect.Inverse.{>>=-done}
use icn_nodus.Effect.Sequence.{issue}
use icn_nodus.Controller.Writing.{logged, attempt-write}
use icn_nodus.Notify.{send, is_other, send_all, send_msg, vlan_msg, send_selected, send_notif}

-- The nodes that a message is for: the one that is named, or all.
abbrev pub addressed : String → List String → List String
addressed node_req [] = []
addressed node_req (name ∷ names) =
    let rest = addressed node_req names in if is_other node_req name then rest else name ∷ rest

abbrev pub one_each : Message → List String → List Event
one_each msg [] = []
one_each msg (name ∷ names) = message_sent name msg ∷ one_each msg names

abbrev pub behind : List Event → World → World
behind calls w = record w { trace = issue calls w.trace }

pub send-attempt :
    (name : String) (msg : Message) (env : Env) (w : World)
    → attempt (send name msg) env w
      ≡ done (env.written w.trace (message_sent name msg)) (logged (message_sent name msg) w)
unfolding send
send-attempt name msg env w = attempt-write (message_sent name msg) env w

sent_or_skipped :
    (other : Bool) (msg : Message) (name : String) (names : List String) (rest : M (Unit {0}))
    (env : Env) (w : World)
    → ((u : World) → rest env u ≡ done tt (behind (one_each msg names) u))
    → (if other then rest else (attempt (send name msg) >>= λ _. rest)) env w
      ≡ done tt (behind (one_each msg (if other then names else name ∷ names)) w)
sent_or_skipped true msg name names rest env w h = h w
sent_or_skipped false msg name names rest env w h =
    >>=-done (attempt (send name msg)) (λ _. rest) env w _ _ (send-attempt name msg env w)
    ∙ h (logged (message_sent name msg) w)

send_all-done :
    (msg : Message) (node_req : String) (names : List String) (env : Env) (w : World)
    → send_all msg node_req names env w
      ≡ done tt (behind (one_each msg (addressed node_req names)) w)
unfolding send_all pure
send_all-done msg node_req [] env w = refl
send_all-done msg node_req (name ∷ names) env w =
    sent_or_skipped (is_other node_req name) msg name (addressed node_req names)
      (send_all msg node_req names) env w (send_all-done msg node_req names env)

send_msg-all :
    (msg : Message) (labels node_req : String) (env : Env) (w : World)
    → send_msg msg labels "all" node_req env w
      ≡ done tt (behind (one_each msg (addressed node_req (env.agents_ranged w.trace w.agents))) w)
unfolding send_msg
send_msg-all msg labels node_req env w =
    send_all-done msg node_req (env.agents_ranged w.trace w.agents) env w

-- If the selector of a VLAN provider network is "all", then its notification returns without an error, and
-- its calls are one message for each agent that is connected, in the order in which the map is ranged
-- over, or for the one node that is named alone. An agent that does not take the message changes nothing.
pub send_notif-all :
    (pn : ProviderNetwork) (msg_type node_req : String) (env : Env) (w : World)
    → (pn.cni_type == "ovn4nfv") ≡ true
    → (pn.provider_net_type == "VLAN") ≡ true
    → env.equal_fold pn.vlan.node_selector "SPECIFIC" ≡ false
    → env.equal_fold pn.vlan.node_selector "ALL" ≡ true
    → send_notif pn msg_type node_req env w
      ≡ done tt (
          behind
            (one_each
              (vlan_msg pn msg_type)
              (addressed node_req (env.agents_ranged w.trace w.agents)))
            w)
unfolding send_notif send_selected ask ◌>>=◌
send_notif-all pn msg_type node_req env w c t s a =
    rw (c, t, s, a) (send_msg-all (vlan_msg pn msg_type) "" node_req env w)
