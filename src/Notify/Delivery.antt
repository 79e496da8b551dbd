-- ===== src/Notify/Delivery.antt =====
-- internal/pkg/nfnNotify/server.go: which agents are sent what, by the notifications of routes and pods.
use icn_nodus.Common.{if◌then◌else◌, String, List, [], ◌∷◌}
use icn_nodus.Api.{Route, RoutingInfo, PodNetworkInfo}
use icn_nodus.Api.Messages.{Message}
use icn_nodus.Effect.{Event, message_sent, Env, World, M, ◌>>◌, pure}
use icn_nodus.Effect.Sequence.{Outcome}
use icn_nodus.Notify.{is_member, send_to, set_routes, routes_of}

-- A message with the node that it is for.
abbrev pub Letter : Type 0
Letter = String × Message

abbrev pub route_letters : (String → List Route → Message) → List RoutingInfo → List Letter
route_letters make [] = []
route_letters make (r ∷ rs) = (r.node, make r.id (routes_of r)) ∷ route_letters make rs

abbrev pub pod_letters :
    (String → String → String → String → List Route → Message) → List PodNetworkInfo → List Letter
pod_letters make [] = []
pod_letters make (p ∷ ps) =
    (p.node, make p.id p.namespace p.name p.network_info (set_routes p.route)) ∷ pod_letters make ps

-- The calls that send the letters to the agents that are connected, in their order.
abbrev pub delivered : List String → List Letter → List Event
delivered names [] = []
delivered names ((node, msg) ∷ letters) =
    let rest = delivered names letters in
    if is_member names node then message_sent node msg ∷ rest else rest

send_letters : List Letter → M (Unit {0})
send_letters [] = pure tt
send_letters ((node, msg) ∷ letters) = send_to node msg >> send_letters letters

-- Each letter for a connected agent is sent, in order, up to the first that fails.
abbrev pub Delivers : List Letter → M (Unit {0}) → Env → World → Type 0
Delivers letters m env w = Outcome (delivered w.agents letters) w.trace (m env w)
