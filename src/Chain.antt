-- ===== src/Chain.antt =====
-- internal/pkg/utils/chain.go: the routes of a service function chain. This file has the data, and the
-- chain's text cut into its labels. A label selector is a text.
pub mod Waiting
pub mod Networks
pub mod Attach
pub mod Selectors
pub mod Neighbours
pub mod Calculation
pub mod Matching
pub mod Containers
use Prim.Native.String
use Prim.Native.String.{[], ◌∷◌}
use icn_nodus.Common.{
  is_blank, split, is_empty, ℕ, zero, suc, String, Bool, ◌&&◌, List, [], ◌∷◌, ◌==◌,
}
use icn_nodus.Api.{NetworkChaining, RoutingInfo}
use icn_nodus.Effect.{Error, message, M, ◌>>=◌, ◌>>◌, pure, raise, panic, index}

abbrev pub sfc_annotation_tag : String
sfc_annotation_tag = "k8s.plugin.opnfv.org/sfc"

abbrev pub sfc_created : String
sfc_created = "created"

abbrev pub sfc_not_required : String
sfc_not_required = "notrequired"

-- RoutingInfo{}
abbrev pub no_routing : RoutingInfo
no_routing = record {
  name = "";
  namespace = "";
  id = "";
  node = "";
  left_network_route = [];
  right_network_route = [];
  dynamic_network_routes = [];
}

-- IsEmpty: reflect.DeepEqual also tells an empty list from a nil one, which the program never makes.
unfoldable pub is_empty_routing : RoutingInfo → Bool
is_empty_routing r =
    is_blank r.name
    && is_blank r.namespace
    && is_blank r.id
    && is_blank r.node
    && is_empty r.left_network_route
    && is_empty r.right_network_route
    && is_empty r.dynamic_network_routes

-- The parts of a chain at even positions, and those at odd ones.
unfoldable pub deployments_of : List String → List String
deployments_of [] = []
deployments_of (d ∷ []) = d ∷ []
deployments_of (d ∷ n ∷ rest) = d ∷ deployments_of rest

unfoldable pub networks_of : List String → List String
networks_of [] = []
networks_of (d ∷ []) = []
networks_of (d ∷ n ∷ rest) = n ∷ networks_of rest

-- chains[0] of a split, which is never empty
unfoldable pub head_label : List String → M String
head_label chains = index chains 0

abbrev pub last_of : String → List String → String
last_of x [] = x
last_of x (y ∷ rest) = last_of y rest

-- chains[len(chains)-1]
unfoldable pub last_label : List String → M String
last_label [] = panic
last_label (x ∷ rest) = pure (last_of x rest)

abbrev pub init_of : List String → List String
init_of [] = []
init_of (x ∷ []) = []
init_of (x ∷ y ∷ rest) = x ∷ init_of (y ∷ rest)

-- chains[1 : len(chains)-1], which panics where there are fewer than two parts
unfoldable pub inner_labels : List String → M (List String)
inner_labels [] = panic
inner_labels (x ∷ []) = panic
inner_labels (x ∷ y ∷ rest) = pure (init_of (y ∷ rest))

-- s[:n] and s[n:]; both panic where the text is shorter
unfoldable pub first_chars : ℕ → String → M String
first_chars zero s = pure ""
first_chars (suc n) [] = panic
first_chars (suc n) (c ∷ s) = do t ← first_chars n s; pure (c ∷ t)

unfoldable pub from_char : ℕ → String → M String
from_char zero s = pure s
from_char (suc n) [] = panic
from_char (suc n) (c ∷ s) = from_char n s

unfoldable pub chain_labels : NetworkChaining → List String
chain_labels cr = split b',' cr.network_chain

-- strings.Compare("net", label[:3]) == 0
unfoldable pub is_net_label : String → M Bool
is_net_label label = do p ← first_chars 3 label; pure (p == "net")

abbrev pub single_replica : Error
single_replica =
    message "Currently load balancing is not supported, expected SFC deployment has only 1 replica"

-- len(pods.Items) != 1, with the item
unfoldable pub the_only : {A : Type 0} → Error → List A → M A
the_only e [] = raise e
the_only e (x ∷ []) = pure x
the_only e (x ∷ y ∷ rest) = raise e
