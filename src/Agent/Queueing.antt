-- ===== src/Agent/Queueing.antt =====
-- cmd/nfn-agent/nfn-agent.go: the messages that come before the node is in sync.
use icn_nodus.Common.{
  All, ◌≡◌, refl, sym, ap, ◌∙◌, true, false, ◌||◌, List, [], ◌∷◌, ◌++◌, append-nil, append_assoc,
}
use icn_nodus.Api.Messages.{
  Message, nothing, vlan_create, direct_create, vlan_remove, direct_remove, route_insert,
  route_remove, pod_add_network, pod_del_network, in_sync,
}
use icn_nodus.Effect.{Env, World, done, pure}
use icn_nodus.Effect.Inverse.{>>=-done}
use icn_nodus.Agent.Handling.{AgentState, NodeClients, on_create, handle_notif, handle_all}
use icn_nodus.Agent.{has_vlan, has_direct}

-- A message that creates a provider network.
abbrev pub Creates : Message → Type 0
Creates msg = (has_vlan msg || has_direct msg) ≡ true

module _ (clients : NodeClients) (env : Env) (w : World) where
  queued :
      (agent : AgentState) (msg : Message)
      → Creates msg
      → agent.synced ≡ false
      → handle_notif clients agent msg env w
        ≡ done (record agent { store = agent.store ++ msg ∷ [] }) w
  unfolding handle_notif on_create pure
  queued agent (vlan_create name id provider logical) c s = rw s refl
  queued agent (direct_create name provider) c s = rw s refl
  queued agent nothing c s = cc
  queued agent (vlan_remove name logical) c s = cc
  queued agent (direct_remove name provider) c s = cc
  queued agent (route_insert id routes) c s = cc
  queued agent (route_remove id routes) c s = cc
  queued agent (pod_add_network id ns name conf routes) c s = cc
  queued agent (pod_del_network id ns name conf routes) c s = cc
  queued agent (in_sync ip mac ipv6) c s = cc

  -- As long as the node is not in sync, the messages that create provider networks are kept in their
  -- order, behind those that are kept already, and nothing is called.
  pub handle_all-queued :
      (agent : AgentState) (msgs : List Message)
      → All Creates msgs
      → agent.synced ≡ false
      → handle_all clients agent msgs env w ≡ done (record agent { store = agent.store ++ msgs }) w
  unfolding handle_all pure
  handle_all-queued agent [] c s =
      ap (λ l. done (record agent { store = l }) w) (sym (append-nil agent.store))
  handle_all-queued agent (msg ∷ msgs) (c, cs) s =
      let next = record agent { store = agent.store ++ msg ∷ [] } in
      >>=-done (handle_notif clients agent msg) (λ a. handle_all clients a msgs) env w w next
        (queued agent msg c s)
      ∙ handle_all-queued next msgs cs s
      ∙ ap (λ l. done (record agent { store = l }) w) (append_assoc agent.store (msg ∷ []) msgs)
