-- ===== src/Chain/Containers/Commands.antt =====
-- internal/pkg/utils/chain.go: the commands that ContainerAddRoute runs in a container's network namespace.
use icn_nodus.Common.{
  if◌then◌else◌, Bool-cases, sprint, contains, itoa, ℕ, String, ◌≡◌, refl, sym, ap, ◌∙◌, inl, inr,
  Bool, true, false, Option, none, some, List, [], ◌∷◌, ◌++◌, ◌==◌,
}
use icn_nodus.Api.{Route}
use icn_nodus.Api.Cluster.{Networking, KernelRoute, kube_client, route_list, get_ns, set_ns}
use icn_nodus.Effect.{
  Error, Event, iproute, requested, Env, World, done, ◌>>=◌, ◌>>◌, pure, raise, check, for_each,
  effects,
}
use icn_nodus.Effect.Requests.{request, after_request, request-eq-done}
use icn_nodus.Effect.Inverse.{>>=-eq-done, done-eq-done}
use icn_nodus.Iface.{
  gateway_or, is_default, default_gateway_of, get_default_gateway, get_host_network,
}
use icn_nodus.Kube.{get_control_plane_service_ip_range}
use icn_nodus.Effect.Sequence.{
  issue, Outcome, Performs, Performs-bind, Performs-pure, Outcome-check, issued_by,
}
use icn_nodus.Ovn.Exec.{ip_reply, run_ip}
use icn_nodus.Chain.Containers.{
  ip_route, route_args, must_ip, add_route, node_routes, enter_namespace, container_add_route,
}

-- The command for one route: the default route is replaced, any other added.
abbrev pub route_call : Route → Event
route_call r = iproute (
    if r.dst == "0.0.0.0" then route_args "replace" "default" r.gw else route_args "add" r.dst r.gw)

abbrev pub route_calls : List Route → List Event
route_calls [] = []
route_calls (r ∷ rs) = route_call r ∷ route_calls rs

-- The commands for the routes of the node.
abbrev pub node_calls : String → String → Networking → String → List Event
node_calls verb host_net kn gw =
    iproute (route_args verb host_net gw)
    ∷ iproute (route_args verb kn.service_subnet gw)
    ∷ iproute (route_args verb kn.pod_subnet gw)
    ∷ []

must_ip-Performs : (args : List String) → Performs (iproute args ∷ []) (must_ip args)
unfolding must_ip run_ip effects
must_ip-Performs args = record {
  outcome = λ env w. Outcome-check (ip_reply env w.trace args).error (iproute args) env w;
}

tolerated :
    (exists : Bool) (o : Option Error) (e : Event) (env : Env) (w : World)
    → Outcome
        (e ∷ [])
        w.trace
        ((if exists then pure tt else check o) env (record w { trace = e ∷ w.trace }))
unfolding pure
tolerated true o e env w = refl
tolerated false o e env w = Outcome-check o e env w

ip_route-Performs : (args : List String) → Performs (iproute args ∷ []) (ip_route args)
unfolding ip_route run_ip ◌>>=◌
ip_route-Performs args = record {
  outcome = λ env w.
      let out = ip_reply env w.trace args in
      tolerated (contains out.stderr "RTNETLINK answers: File exists") out.error (iproute args) env
        w;
}

default_or :
    (b : Bool) (replace add : List String)
    → Performs
        (iproute (if b then replace else add) ∷ [])
        (if b then must_ip replace else ip_route add)
default_or true replace add = must_ip-Performs replace
default_or false replace add = ip_route-Performs add

add_route-Performs : (r : Route) → Performs (route_call r ∷ []) (add_route r)
unfolding add_route
add_route-Performs r =
    default_or (r.dst == "0.0.0.0") (route_args "replace" "default" r.gw)
      (route_args "add" r.dst r.gw)

-- The three routes of the node and those of the chain are added in this order, and the first command
-- that fails, other than for a route that exists, is the last.
routes-Performs : (routes : List Route) → Performs (route_calls routes) (for_each routes add_route)
unfolding for_each
routes-Performs [] = Performs-pure tt
routes-Performs (r ∷ rs) =
    Performs-bind (route_call r ∷ []) (route_calls rs) (for_each rs add_route) (routes-Performs rs)
      (add_route r) (add_route-Performs r)

node_routes-Performs :
    (verb host_net : String) (kn : Networking) (gw : String)
    → Performs (node_calls verb host_net kn gw) (node_routes verb host_net kn gw)
unfolding node_routes
node_routes-Performs verb host_net kn gw =
    Performs-bind _ _ _
      (Performs-bind _ _ _ (ip_route-Performs (route_args verb kn.pod_subnet gw)) _
        (ip_route-Performs (route_args verb kn.service_subnet gw)))
      _ (ip_route-Performs (route_args verb host_net gw))

abbrev pub ns_path : ℕ → String
ns_path pid = sprint ("/proc/" ∷ itoa pid ∷ "/ns/net" ∷ [])

-- What was read before the routes were added, each step from the world that the one before left: the
-- network of the host, the subnets of the services and the pods, and, in the container's network
-- namespace, the gateway of its default route; and all calls that were made from the change into the
-- namespace on, in their order.
pub record Configured (pid : ℕ) (routes : List Route) (env : Env) (w v : World) : Type 0 where
  pub host_net : String
  pub networking : Networking
  pub gw : String
  pub host_read : World
  pub cluster_read : World
  pub inside : World
  pub gw_read : World
  pub host : get_host_network env w ≡ done host_net host_read
  pub cluster :
      get_control_plane_service_ip_range env (after_request kube_client host_read)
      ≡ done networking cluster_read
  pub entered : enter_namespace pid env cluster_read ≡ done tt inside
  pub gateway : get_default_gateway env inside ≡ done gw gw_read
  pub made :
      v.trace
      ≡ issue
          (requested (get_ns (ns_path pid))
            ∷ requested (set_ns (ns_path pid))
            ∷ requested route_list
            ∷ (node_calls "add" host_net networking gw ++ route_calls routes))
          cluster_read.trace

default_gateway_of-world :
    (routes : List KernelRoute) (env : Env) (w v : World) (gw : String)
    → default_gateway_of routes env w ≡ done gw v
    → v ≡ w
unfolding default_gateway_of pure raise
default_gateway_of-world [] env w v gw h = cc
default_gateway_of-world (r ∷ rs) env w v gw h = elim (Bool-cases (is_default r)) [
  | inl e ↦ given r.gw (rw e at h)
  | inr e ↦ default_gateway_of-world rs env w v gw (rw e at h)
]
  where
    given :
        (o : Option String)
        → gateway_or "Found default route but could not determine gateway" o env w ≡ done gw v
        → v ≡ w
    given none p = cc
    given (some g) p = sym (done-eq-done p).1

get_default_gateway-world :
    (env : Env) (w v : World) (gw : String)
    → get_default_gateway env w ≡ done gw v
    → v ≡ after_request route_list w
unfolding get_default_gateway
get_default_gateway-world env w v gw h =
    let (routes, u, p, q) = >>=-eq-done (request route_list) _ env w gw v h in
    default_gateway_of-world routes env u v gw q ∙ request-eq-done route_list env w u routes p

enter_namespace-world :
    (pid : ℕ) (env : Env) (w v : World)
    → enter_namespace pid env w ≡ done tt v
    → v ≡ after_request (set_ns (ns_path pid)) (after_request (get_ns (ns_path pid)) w)
unfolding enter_namespace
enter_namespace-world pid env w v h =
    let (a, u, p, q) = >>=-eq-done (request (get_ns (ns_path pid))) _ env w tt v h in
    request-eq-done (set_ns (ns_path pid)) env u v tt q
    ∙ ap (after_request (set_ns (ns_path pid))) (request-eq-done (get_ns (ns_path pid)) env w u a p)

-- If ContainerAddRoute returns without an error, then it has read the network of the host and the
-- subnets of the services and the pods, and its calls from there on are: the change into the container's
-- network namespace, the reading of its routes, a route to each of these three through the gateway of the
-- default route that the namespace has, and then one command for each route of the chain in their
-- order, which replaces the default route or adds any other.
pub container_add_route-Configured :
    (pid : ℕ) (routes : List Route) (env : Env) (w v : World)
    → container_add_route pid routes env w ≡ done tt v
    → Configured pid routes env w v
unfolding container_add_route
container_add_route-Configured pid routes env w v h =
    let (host_net, u, p, q) = >>=-eq-done get_host_network _ env w tt v h in
    let (a, u1, p1, q1) = >>=-eq-done (request kube_client) _ env u tt v q in
    let (kn, u2, p2, q2) = >>=-eq-done get_control_plane_service_ip_range _ env u1 tt v q1 in
    let (_, u3, p3, q3) = >>=-eq-done (enter_namespace pid) _ env u2 tt v q2 in
    let (gw, u4, p4, q4) = >>=-eq-done get_default_gateway _ env u3 tt v q3 in
    let calls = node_calls "add" host_net kn gw ++ route_calls routes in
    record {
      host_net = host_net;
      networking = kn;
      gw = gw;
      host_read = u;
      cluster_read = u2;
      inside = u3;
      gw_read = u4;
      host = p;
      cluster = rw (← request-eq-done kube_client env u u1 a p1) p2;
      entered = p3;
      gateway = p4;
      made =
          issued_by calls (node_routes "add" host_net kn gw >> for_each routes add_route) env u4 v
            tt
            (Performs-bind (node_calls "add" host_net kn gw) (route_calls routes)
              (for_each routes add_route) (routes-Performs routes)
              (node_routes "add" host_net kn gw) (node_routes-Performs "add" host_net kn gw))
            q4
          ∙ ap (λ (x : World). issue calls x.trace)
              (get_default_gateway-world env u3 u4 gw p4
                ∙ ap (after_request route_list) (enter_namespace-world pid env u2 u3 p3));
    }
