-- ===== src/Examples/Agents.antt =====
-- The theorems on the agent of a node at concrete messages.
use icn_nodus.Common.{◌≡◌, refl, true, false, List, [], ◌∷◌}
use icn_nodus.Api.Messages.{Message, vlan_create, direct_create, route_insert, in_sync}
use icn_nodus.Effect.{external, ◌>>=◌, ◌>>◌, pure, raise, attempt}
use icn_nodus.Ovn.Bridge.{get_vlan, get_pn_bridge}
use icn_nodus.Agent.Received.{vlan_on_node, handle_notif-vlan_msg}
use icn_nodus.Notify.{vlan_msg}
use icn_nodus.Api.{ProviderNetwork}
use icn_nodus.Agent.Handling.{AgentState, NodeClients, handle_notif, handle_all}
use icn_nodus.Agent.{in_sync_vlan, in_sync_direct}
use icn_nodus.Agent.Syncing.{wipe_vlans, wipe_bridges, in_sync-wiped}
use icn_nodus.Agent.Settled.{Settles, handle_all-Settles}
use icn_nodus.Examples.{printing, fresh}
use icn_nodus.Examples.Chains.{no_vlan, edge}

-- The container runtime knows no container.
abbrev no_containers : NodeClients
no_containers = record {
  pid_of = λ id. raise (external "not found");
  add_interface = λ pid ns name conf. raise (external "not found");
  del_interface = λ pid ns name conf. raise (external "not found");
  create_port = λ ip ipv6 mac name. pure tt;
}

abbrev starting_agent : AgentState
starting_agent = record { store = []; synced = false }

abbrev vlan_red : Message
vlan_red = vlan_create "red" "100" "eth0" "eth0.100"

abbrev direct_green : Message
direct_green = direct_create "green" "eth1"

abbrev red : ProviderNetwork
red = record edge {
  name = "red";
  provider_net_type = "VLAN";
  vlan = record no_vlan {
    vlan_id = "100";
    node_selector = "all";
    provider_interface_name = "eth0";
  };
}

abbrev in_sync_agent : AgentState
in_sync_agent = record { store = []; synced = true }

handle_notif-vlan_msg_example :
    (handle_notif no_containers in_sync_agent (vlan_msg red "create")
      ≡ (attempt (vlan_on_node red "red.100") >>= λ _. pure in_sync_agent))
    × (handle_notif no_containers in_sync_agent (vlan_msg red "delete") ≡ pure in_sync_agent)
handle_notif-vlan_msg_example = handle_notif-vlan_msg no_containers red in_sync_agent refl

in_sync-wiped_example :
    (in_sync_vlan (vlan_red ∷ []) ≡ (
      get_vlan >>= λ vlans. get_pn_bridge "nfn" >>= λ bridges.
      attempt (wipe_vlans vlans >> wipe_bridges bridges) >>= λ _. pure tt))
    × (in_sync_direct (direct_green ∷ [])
        ≡ (get_pn_bridge "nfn" >>= λ bridges. wipe_bridges bridges))
in_sync-wiped_example = in_sync-wiped (vlan_red ∷ []) (direct_green ∷ []) (refl, tt) (refl, tt)

abbrev messages : List Message
messages = vlan_red ∷ in_sync "10.0.0.5" "0a:58" "" ∷ route_insert "docker://c1" [] ∷ []

handle_all-Settles_example :
    Settles (handle_all no_containers starting_agent messages (printing "") fresh)
handle_all-Settles_example =
    handle_all-Settles no_containers starting_agent (vlan_red ∷ [])
      (route_insert "docker://c1" [] ∷ []) "10.0.0.5" "0a:58" "" (printing "") fresh
