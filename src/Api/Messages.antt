-- ===== src/Api/Messages.antt =====
-- internal/pkg/nfnNotify/proto/nfn.proto: the payloads that the operator sends to the agents, all with the
-- CNI type ovn4nfv. `nothing` is a notification that was never set.
use icn_nodus.Common.{String, List}
use icn_nodus.Api.{Route}

pub data Message : Type 0 where
  nothing : Message
  -- ProviderNetworkCreate with VlanInfo: name, id, provider interface and logical interface
  vlan_create : String → String → String → String → Message
  -- ProviderNetworkCreate with DirectInfo: name and provider interface
  direct_create : String → String → Message
  -- ProviderNetworkRemove: name and logical interface, or name and provider interface
  vlan_remove : String → String → Message
  direct_remove : String → String → Message
  -- ContainerRouteInsert and ContainerRouteRemove: container id and routes
  route_insert : String → List Route → Message
  route_remove : String → List Route → Message
  -- PodAddNetwork and PodDelNetwork: container id, pod, network and routes
  pod_add_network : String → String → String → String → List Route → Message
  pod_del_network : String → String → String → String → List Route → Message
  -- InSync: IPv4, MAC and IPv6 address of the node's port
  in_sync : String → String → String → Message
