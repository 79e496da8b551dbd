-- ===== src/Pool.antt =====
-- internal/pkg/network/pool.go: the pool of virtual networks, kept in a config map. The pool's data is
-- modelled decoded: JSON and the clients' own retries are left out.
pub mod Allocation
pub mod Recording
use icn_nodus.Common.{if◌then◌else◌, is_empty, String, Bool, false, not, ◌&&◌, List, [], ◌∷◌, ◌==◌}
use icn_nodus.Api.{IpSubnet, NetworkPool, network, created}
use icn_nodus.Effect.{
  Error, message, Result, ok, err, get_pools, create_network, watch_network, update_pools, M, ◌>>=◌,
  ◌>>◌, pure, raise, check, ask, of_result, log,
}

-- CreateNetwork: the state that the watch reports last decides. A creation that failed is not
-- watched.
unfoldable pub create_network_object : IpSubnet → M (Unit {0})
create_network_object sn = do
  refused ← ask (λ env trace. env.created trace sn)
  log (create_network sn)
  check refused
  state ← ask (λ env trace. env.watched trace sn.name)
  log (watch_network sn.name)
  s ← of_result state
  if s == "Created" then pure tt else raise (message "Network is not created")

-- UpdateNetworkPool
unfoldable pub update_network_pool : List NetworkPool → M (Unit {0})
update_network_pool nps = do
  refused ← ask (λ env trace. env.updated trace nps)
  log (update_pools nps)
  check refused

abbrev pub no_network : IpSubnet
no_network = record { name = ""; subnet = ""; gateway = ""; exclude_ips = "" }

-- A pool that is given away, and one that can be.
abbrev pub is_taken : NetworkPool → Bool
is_taken np = not (np.network.name == "nil") && not np.available

abbrev pub is_free : NetworkPool → Bool
is_free np = np.network.name == "nil" && np.available

abbrev pub take_pool : String → NetworkPool → NetworkPool
take_pool ns np = record np { network = record np.network { name = ns }; available = false }

abbrev pub prepend :
    NetworkPool → Result (List NetworkPool × IpSubnet) → Result (List NetworkPool × IpSubnet)
prepend np (ok (nps, n)) = ok (np ∷ nps, n)
prepend np (err e) = err e

-- The search of CreateNetworkFromPool: the pools after it, and the network that was chosen, which is
-- empty if no entry was free and the last one was not taken.
unfoldable pub choose_pool : String → List NetworkPool → Result (List NetworkPool × IpSubnet)
choose_pool ns [] = ok ([], no_network)
choose_pool ns (np ∷ nps) =
    let rest = prepend np (choose_pool ns nps) in
    if is_taken np
    then (if is_empty nps then err (message "all the network pools are taken") else rest)
    else if is_free np
    then ok (take_pool ns np ∷ nps, (take_pool ns np).network)
    else rest

unfoldable pub use_choice : List NetworkPool × IpSubnet → M (Unit {0})
use_choice (nps, conf) = do create_network_object conf; update_network_pool nps

-- The rest of CreateNetworkFromPool, where there is a file of virtual networks.
unfoldable pub allocate : String → M (Unit {0})
allocate ns = do
  pools ← ask (λ env trace. env.pools trace)
  log get_pools
  nps ← of_result pools
  choice ← of_result (choose_pool ns nps)
  use_choice choice

abbrev pub no_config : Error
no_config = message "Can't create virtual network as the network pool config doesn't exit"

-- CreateNetworkFromPool, which holds a lock for its whole run
unfoldable pub create_network_from_pool : String → M (Unit {0})
create_network_from_pool ns = do
  answer ← ask (λ env trace. env.conf_exists trace)
  exists ← of_result answer
  if exists then allocate ns else raise no_config
