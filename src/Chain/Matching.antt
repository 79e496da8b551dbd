-- ===== src/Chain/Matching.antt =====
-- internal/pkg/utils/chain.go: whether a new pod belongs to a chain, and its routes.
pub mod Shared
use icn_nodus.Common.{
  if◌then◌else◌, String, Bool, true, false, ◌&&◌, ◌||◌, Option, none, some, List, [], ◌∷◌, ◌==◌,
}
use icn_nodus.Api.{RoutingNetwork, NetworkChaining, RoutingInfo, PodNetworkInfo, Labels}
use icn_nodus.Api.Cluster.{
  kube_client, crd_client, list_chainings, pod_by_name, namespace_by_name, chaining_by_name,
}
use icn_nodus.Effect.{M, ◌>>=◌, ◌>>◌, pure, attempt}
use icn_nodus.Effect.Requests.{request}
use icn_nodus.Kube.{set_annotation_on_pod}
use icn_nodus.Chain.{sfc_annotation_tag, sfc_not_required}
use icn_nodus.Chain.Calculation.{calculate_routes}

abbrev pub same_entry : String × String → String × String → Bool
same_entry (k, v) (j, w) = k == j && v == w

-- The inner loop of compareEachLabel, with the flag that the outer loop keeps.
unfoldable pub compare_with : Bool → String × String → Labels → Bool
compare_with equal a [] = equal
compare_with equal a (b ∷ bs) =
    let rest = compare_with equal a bs in
    if same_entry a b then true else if equal then equal else rest

unfoldable pub compare_from : Bool → Labels → Labels → Bool
compare_from equal [] b = equal
compare_from equal (entry ∷ a) b = compare_from (compare_with equal entry b) a b

-- compareEachLabel
unfoldable pub compare_each_label : Labels → Labels → Bool
compare_each_label a b = compare_from false a b

-- One of the networks of a side selects the pod.
unfoldable pub side_matches : Labels → Labels → List RoutingNetwork → Bool
side_matches pod ns [] = false
side_matches pod ns (n ∷ rest) =
    compare_each_label n.pod_selector pod && compare_each_label n.namespace_selector ns
    || side_matches pod ns rest

-- The first chain with a side that selects the pod.
unfoldable pub matching_chain :
    (NetworkChaining → List RoutingNetwork)
    → Labels
    → Labels
    → List NetworkChaining
    → Option NetworkChaining
matching_chain side pod ns [] = none
matching_chain side pod ns (nc ∷ ncs) =
    let rest = matching_chain side pod ns ncs in
    if side_matches pod ns (side nc) then some nc else rest

-- The left sides of all chains come before the right ones.
unfoldable pub chain_for_pod : Labels → Labels → List NetworkChaining → Option NetworkChaining
chain_for_pod pod ns ncs = elim (matching_chain (λ nc. nc.left_network) pod ns ncs) [
  | some nc ↦ some nc
  | none ↦ matching_chain (λ nc. nc.right_network) pod ns ncs
]

-- noSFCrequired
unfoldable pub no_sfc_required : String → String → M (Unit {0})
no_sfc_required podname podnamespace = do
  pod ← request (pod_by_name podnamespace podname)
  _ ← attempt (set_annotation_on_pod pod sfc_annotation_tag sfc_not_required)
  pure tt

abbrev pub Routes : Type 0
Routes = Option (List PodNetworkInfo × List RoutingInfo)

abbrev not_required : String → String → M Routes
not_required podname podnamespace = do _ ← attempt (no_sfc_required podname podnamespace); pure none

abbrev routes_in : Option NetworkChaining → M Routes
routes_in none = pure none
routes_in (some nc) = do
  cr ← request (chaining_by_name nc.name)
  routes ← calculate_routes cr false true
  pure (some routes)

abbrev in_namespace : String → String → Labels → List NetworkChaining → Option Labels → M Routes
in_namespace podname podnamespace pod ncs none = not_required podname podnamespace
in_namespace podname podnamespace pod ncs (some ns) = routes_in (chain_for_pod pod ns ncs)

abbrev with_labels : String → String → List NetworkChaining → Option Labels → M Routes
with_labels podname podnamespace ncs none = not_required podname podnamespace
with_labels podname podnamespace ncs (some pod) = do
  ns ← request (namespace_by_name podnamespace)
  in_namespace podname podnamespace pod ncs ns.labels

-- ConfigureforSFC
unfoldable pub configure_for_sfc : String → String → M Routes
configure_for_sfc podname podnamespace = do
  request kube_client
  request crd_client
  ncs ← request list_chainings
  pod ← request (pod_by_name podnamespace podname)
  with_labels podname podnamespace ncs pod.labels
