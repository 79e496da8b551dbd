-- ===== src/Chain/Containers.antt =====
-- internal/pkg/utils/chain.go: the routes of a chain in a container's network namespace.
pub mod Commands
use Prim.Native.String
use icn_nodus.Common.{nat_eq, if◌then◌else◌, sprint, contains, itoa, ℕ, String, List, [], ◌∷◌, ◌==◌}
use icn_nodus.Api.{Route}
use icn_nodus.Api.Cluster.{
  Networking, kube_client, get_ns, set_ns, docker_client, inspect_container,
}
use icn_nodus.Effect.{message, Output, M, ◌>>=◌, ◌>>◌, pure, raise, check, for_each}
use icn_nodus.Effect.Requests.{request}
use icn_nodus.Kube.{get_control_plane_service_ip_range}
use icn_nodus.Iface.{get_gateway_interface, is_route_exist, get_default_gateway, get_host_network}
use icn_nodus.Ovn.Exec.{run_ip}

-- `if err != nil && !strings.Contains(stderr, "RTNETLINK answers: File exists") { return err }`
abbrev pub unless_exists : Output → M (Unit {0})
unless_exists out =
    if contains out.stderr "RTNETLINK answers: File exists" then pure tt else check out.error

unfoldable pub ip_route : List String → M (Unit {0})
ip_route args = do out ← run_ip args; unless_exists out

abbrev pub route_args : String → String → String → List String
route_args verb dst gw = "route" ∷ verb ∷ dst ∷ "via" ∷ gw ∷ []

-- RunIP whose error always counts
unfoldable pub must_ip : List String → M (Unit {0})
must_ip args = do out ← run_ip args; check out.error

-- One route of ContainerAddRoute.
unfoldable pub add_route : Route → M (Unit {0})
add_route r =
    if r.dst == "0.0.0.0"
    then must_ip (route_args "replace" "default" r.gw)
    else ip_route (route_args "add" r.dst r.gw)

-- One route of ContainerDelRoute; the default route goes back to the pod's own gateway.
unfoldable pub del_route : String → Route → M (Unit {0})
del_route pod_gw r =
    if r.dst == "0.0.0.0" then must_ip (route_args "replace" "default" pod_gw) else (do
      exists ← is_route_exist r.dst r.gw
      if exists then ip_route (route_args "del" r.dst r.gw) else pure tt)

-- The three routes of the node: to the network of the host, the services and the pods.
unfoldable pub node_routes : String → String → Networking → String → M (Unit {0})
node_routes verb host_net kn pod_gw = do
  ip_route (route_args verb host_net pod_gw)
  ip_route (route_args verb kn.service_subnet pod_gw)
  ip_route (route_args verb kn.pod_subnet pod_gw)

-- ns.GetNS and the change into the namespace, in which all that follows runs
unfoldable pub enter_namespace : ℕ → M (Unit {0})
enter_namespace pid = do
  request (get_ns (sprint ("/proc/" ∷ itoa pid ∷ "/ns/net" ∷ [])))
  request (set_ns (sprint ("/proc/" ∷ itoa pid ∷ "/ns/net" ∷ [])))

-- ContainerAddRoute
unfoldable pub container_add_route : ℕ → List Route → M (Unit {0})
container_add_route pid routes = do
  host_net ← get_host_network
  request kube_client
  kn ← get_control_plane_service_ip_range
  enter_namespace pid
  pod_gw ← get_default_gateway
  node_routes "add" host_net kn pod_gw
  for_each routes add_route

-- ContainerDelRoute
unfoldable pub container_del_route : ℕ → List Route → M (Unit {0})
container_del_route pid routes = do
  host_net ← get_host_network
  request kube_client
  kn ← get_control_plane_service_ip_range
  enter_namespace pid
  pod_gw ← get_gateway_interface kn.service_subnet
  node_routes "del" host_net kn pod_gw
  for_each routes (del_route pod_gw)

-- GetPidForContainer
unfoldable pub get_pid_for_container : String → M ℕ
get_pid_for_container id = do
  request docker_client
  pid ← request (inspect_container id)
  if nat_eq pid 0 then raise (message (sprint ("Container not found " ∷ id ∷ []))) else pure pid
