-- ===== src/Ovn/Network/Deletion.antt =====
-- How DeleteNetwork and DeleteProviderNetwork of internal/pkg/ovn/ovn.go take a network down.
use icn_nodus.Common.{sprint, String, List, [], ◌∷◌}
use icn_nodus.Api.{Network}
use icn_nodus.Effect.{Event, nbctl}
use icn_nodus.Effect.Sequence.{Performs, Performs-bind, Performs-pure}
use icn_nodus.Ovn.Exec.Calls.{must-Performs}
use icn_nodus.Ovn.Network.{
  get_ipv4_logical_switch_name, get_ipv6_logical_switch_name, get_ipv4_logical_router_port_name,
  get_ipv6_logical_router_port_name, delete_logical_switch, delete_logical_router_port,
  delete_network_ls,
}

abbrev pub delete_switch_call : String → Event
delete_switch_call name = nbctl ("--if-exist" ∷ "--wait=hv" ∷ "ls-del" ∷ name ∷ [])

abbrev pub delete_router_port_call : String → Event
delete_router_port_call name = nbctl ("--if-exist" ∷ "--wait=hv" ∷ "lrp-del" ∷ name ∷ [])

delete_logical_switch-Performs :
    (name : String) → Performs (delete_switch_call name ∷ []) (delete_logical_switch name)
unfolding delete_logical_switch
delete_logical_switch-Performs name = Performs-bind _ [] _ (Performs-pure tt) _ (must-Performs _)

delete_logical_router_port-Performs :
    (name : String) → Performs (delete_router_port_call name ∷ []) (delete_logical_router_port name)
unfolding delete_logical_router_port
delete_logical_router_port-Performs name =
    Performs-bind _ [] _ (Performs-pure tt) _ (must-Performs _)

-- The names of a network's router ports and switches: the IPv6 names differ by a mark.
abbrev pub network_calls : Network → List Event
network_calls cr =
    delete_router_port_call (sprint ("rtos-" ∷ cr.name ∷ []))
    ∷ delete_router_port_call (sprint ("rtosv6-" ∷ cr.name ∷ []))
    ∷ delete_switch_call cr.name
    ∷ delete_switch_call (sprint (cr.name ∷ "v6" ∷ []))
    ∷ []

pub delete_network_ls-Performs : (cr : Network) → Performs (network_calls cr) (delete_network_ls cr)
unfolding delete_network_ls get_ipv4_logical_switch_name get_ipv6_logical_switch_name
    get_ipv4_logical_router_port_name get_ipv6_logical_router_port_name
delete_network_ls-Performs cr =
    Performs-bind (_ ∷ []) _ _
      (Performs-bind (_ ∷ []) _ _
        (Performs-bind (_ ∷ []) _ _ (delete_logical_switch-Performs _) _
          (delete_logical_switch-Performs _))
        _ (delete_logical_router_port-Performs _))
      _ (delete_logical_router_port-Performs _)
