-- ===== src/Examples/Notifications.antt =====
-- The theorems on the notification server at concrete agents.
use icn_nodus.Common.{
  if◌then◌else◌, split, is_prefix, contains, trim_left, trim_right, trim, trim_left_space,
  trim_right_space, trim_space, join_comma, take_text, itoa_rounds, itoa, any, String, ◌≡◌, refl,
  none, List, [], ◌∷◌, ◌==◌,
}
use icn_nodus.Api.{ProviderNetwork, RoutingInfo, PodNetworkInfo, lookup, insert}
use icn_nodus.Effect.{Env, World, done, effects}
use icn_nodus.Effect.Emits.{world_of}
use icn_nodus.Ovn.Ports.{
  get_node_intf_name, add_node_logical_port_with_switch, add_node_logical_ports,
}
use icn_nodus.Ovn.Exec.{nbctl_reply, run_ovn_nbctl}
use icn_nodus.Ovn.Gateway.{
  parse_gateways, gateway_text, get_gateway_from_switch, find_index, family_address, poll,
  address_parts,
}
use icn_nodus.Ovn.Network.{get_ovn_controller}
use icn_nodus.Controller.{write}
use icn_nodus.Effect.Requests.{request}
use icn_nodus.Notify.{
  register, send, send_to, send_all, send_any, send_nodes, send_msg, vlan_msg, direct_msg,
  update_pn_status, send_to_any, send_selected, send_notif, send_each, subscribe,
}
use icn_nodus.Notify.Broadcast.{one_each, behind, send_notif-all}
use icn_nodus.Notify.Subscribing.{InSync, subscribe-InSync}
use icn_nodus.Examples.{fresh}
use icn_nodus.Examples.Chains.{edge, chained}

abbrev two_agents : World
two_agents = record fresh { agents = "node1" ∷ "node2" ∷ [] }

abbrev told_routes : List RoutingInfo
told_routes =
    record {
      name = "nf1";
      namespace = "default";
      id = "docker://c1";
      node = "node2";
      left_network_route = [];
      right_network_route = [];
      dynamic_network_routes = [];
    }
    ∷ []

abbrev told_pods : List PodNetworkInfo
told_pods =
    record {
      name = "web";
      namespace = "default";
      id = "docker://c2";
      node = "node3";
      network_info = "{}";
      route = [];
    }
    ∷ []

abbrev vlan_edge : ProviderNetwork
vlan_edge = record edge {
  provider_net_type = "VLAN";
  vlan = record {
    vlan_id = "100";
    node_selector = "ALL";
    node_label_list = [];
    provider_interface_name = "eth0";
    logical_interface_name = "eth0.100";
  };
}

send_notif-all_example :
    send_notif vlan_edge "create" "node2" chained two_agents
    ≡ done tt (behind (one_each (vlan_msg vlan_edge "create") ("node2" ∷ [])) two_agents)
send_notif-all_example =
    send_notif-all vlan_edge "create" "node2" chained two_agents refl refl refl refl

abbrev printed : List String → String
printed args =
    if any (λ a. a == "dynamic_addresses") args then "0a:58:0a:00:00:05 10.0.0.5" else "10.0.0.1/24"

abbrev with_gateway : Env
with_gateway = record chained {
  exec = λ trace k path args. record { stdout = printed args; stderr = ""; error = none };
}

abbrev subscribed : World
subscribed = world_of (subscribe "node1" with_gateway fresh)

subscription_run : subscribe "node1" with_gateway fresh ≡ done tt subscribed
unfolding subscribe effects get_ovn_controller add_node_logical_ports
    add_node_logical_port_with_switch run_ovn_nbctl nbctl_reply poll get_node_intf_name take_text
    itoa itoa_rounds address_parts split get_gateway_from_switch insert lookup is_prefix contains
    join_comma trim trim_left trim_left_space trim_right trim_right_space trim_space write request
    direct_msg register send send_all send_any send_each send_msg send_nodes send_notif
    send_selected send_to send_to_any update_pn_status vlan_msg family_address find_index
    gateway_text parse_gateways
subscription_run = refl

subscribe-InSync_example : InSync "node1" with_gateway subscribed
subscribe-InSync_example = subscribe-InSync "node1" with_gateway fresh subscribed subscription_run
