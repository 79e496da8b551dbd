-- ===== src/Agent/Received.antt =====
-- What a node's agent (cmd/nfn-agent/nfn-agent.go) does with the messages that the operator makes for a
-- provider network (internal/pkg/nfnNotify/server.go).
use icn_nodus.Common.{
  if◌then◌else◌, Bool-cases, sprint, is_blank, String, ◌≡◌, refl, inl, inr, true, [], ◌∷◌,
}
use icn_nodus.Api.{ProviderNetwork}
use icn_nodus.Effect.{M, ◌>>=◌, ◌>>◌, pure, attempt}
use icn_nodus.Ovn.Bridge.{create_vlan, delete_vlan, create_pn_bridge, delete_pn_bridge}
use icn_nodus.Notify.{vlan_msg}
use icn_nodus.Agent.Handling.{AgentState, NodeClients, on_create, on_remove, handle_notif}
use icn_nodus.Agent.{nw_name, br_name, create_vlan_network, delete_network}

-- The interface and the bridge of a VLAN network on a node.
abbrev pub vlan_on_node : ProviderNetwork → String → M (Unit {0})
vlan_on_node pn intf = do
  create_vlan pn.vlan.vlan_id pn.vlan.provider_interface_name intf
  create_pn_bridge (nw_name pn.name) (br_name pn.name) intf

-- Both are deleted, and an error of the first is dropped.
abbrev pub vlan_off_node : ProviderNetwork → String → M (Unit {0})
vlan_off_node pn intf = do
  _ ← attempt (delete_vlan intf)
  _ ← attempt (delete_pn_bridge (nw_name pn.name) (br_name pn.name))
  pure tt

-- The name of the interface: the one of the specification, or one made of the network's name and the id.
abbrev pub interface_for : ProviderNetwork → String
interface_for pn =
    if is_blank pn.vlan.logical_interface_name
    then sprint (pn.name ∷ "." ∷ pn.vlan.vlan_id ∷ [])
    else pn.vlan.logical_interface_name

module _ (clients : NodeClients) (pn : ProviderNetwork) (agent : AgentState) where
  -- The message for a VLAN network makes an agent that is in sync create its interface, of the id and over
  -- the provider interface of the specification, and its bridge. The message for its deletion makes it
  -- delete both if the specification names the interface; if it does not, nothing is called, and the
  -- interface and the bridge that the creation made stay.
  pub handle_notif-vlan_msg :
      agent.synced ≡ true
      → (handle_notif clients agent (vlan_msg pn "create")
          ≡ (attempt (vlan_on_node pn (interface_for pn)) >>= λ _. pure agent))
        × (handle_notif clients agent (vlan_msg pn "delete") ≡ (
            if is_blank pn.vlan.logical_interface_name
            then pure agent
            else (vlan_off_node pn (interface_for pn) >>= λ _. pure agent)))
  unfolding handle_notif vlan_msg on_create on_remove create_vlan_network delete_network ◌>>=◌ pure
  handle_notif-vlan_msg s = (
    rw s refl,
    elim (Bool-cases (is_blank pn.vlan.logical_interface_name)) [
      | inl e ↦ rw (s, e) refl
      | inr e ↦ rw (s, e) refl
    ],
  )
