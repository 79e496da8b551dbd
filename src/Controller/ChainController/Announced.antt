-- ===== src/Controller/ChainController/Announced.antt =====
-- pkg/controller/networkchaining/networkchaining_controller.go: what the creation of a chain sends, and
-- which state it writes.
use icn_nodus.Common.{◌≡◌, false, Option, none, some, List}
use icn_nodus.Api.{
  NetworkChaining, RoutingInfo, PodNetworkInfo, network_chaining, created, creating,
  create_internal_error,
}
use icn_nodus.Effect.{Error, update_status, Env, World, done, attempt}
use icn_nodus.Effect.Returns.{Returns}
use icn_nodus.Chain.Calculation.{calculate_routes}
use icn_nodus.Controller.Writing.{logged, write-eq-done}
use icn_nodus.Controller.ChainController.{with_state, save_status, check_chain, state_of}
use icn_nodus.Notify.Delivery.{route_letters, pod_letters, delivered}
use icn_nodus.Api.Messages.{route_insert, pod_add_network}
use icn_nodus.Effect.Sequence.{Reached}
use icn_nodus.Notify.{send_route_notif, send_pod_network_notif}

-- A status that was written is the last call.
pub save_status-eq-done :
    (sent cr' : NetworkChaining) (env : Env) (w v : World)
    → save_status sent env w ≡ done cr' v
    → (cr' ≡ sent) × (v ≡ logged (update_status (network_chaining sent)) w)
unfolding save_status
save_status-eq-done sent cr' env w v h =
    write-eq-done (update_status (network_chaining sent)) sent cr' env w v h

module _ (pods : List PodNetworkInfo) (routes : List RoutingInfo) (cr : NetworkChaining)
    (env : Env) where
  -- By the outcome of the first notification: where the routes were sent the pods' networks are sent too,
  -- to the agents that are connected, and the outcome of that decides; else the state is
  -- CreateInternalError and nothing else is sent.
  abbrev pub Told : Option Error → World → NetworkChaining → World → Type 0
  Told none u' cr' v =
      (o : Option Error) × (x : World) × (attempt (send_pod_network_notif pods "create") env u'
        ≡ done o x)
      × Reached (delivered u'.agents (pod_letters pod_add_network pods)) u'.trace o x
      × (cr' ≡ with_state cr (state_of created create_internal_error o))
      × (v ≡ logged (update_status (network_chaining cr')) x)
  Told (some e) u' cr' v =
      (cr' ≡ with_state cr create_internal_error)
      × (v ≡ logged (update_status (network_chaining cr')) u')

-- The run of the creation: the chain is checked and is then in the state Creating, its routes and pods are
-- calculated in the world that is left, and the routes are sent in the world behind that, and then what
-- became of them.
pub record Announced (env : Env) (cr cr' : NetworkChaining) (w v : World) : Type 0 where
  pub pods : List PodNetworkInfo
  pub routes : List RoutingInfo
  pub started : World
  pub before : World
  pub outcome : Option Error
  pub after : World
  pub checked : check_chain cr env w ≡ done (with_state cr creating) started
  pub calculated :
      calculate_routes (with_state cr creating) false false env started ≡ done (pods, routes) before
  pub sending : attempt (send_route_notif routes "create") env before ≡ done outcome after
  pub sent_routes :
      Reached
        (delivered before.agents (route_letters route_insert routes))
        before.trace
        outcome
        after
  pub told : Told pods routes cr env outcome after cr' v
