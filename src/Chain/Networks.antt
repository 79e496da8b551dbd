-- ===== src/Chain/Networks.antt =====
-- internal/pkg/utils/chain.go: the networks that the labels of a chain select, and their creation.
pub mod Weaving
use Prim.Native.String
use icn_nodus.Common.{
  if◌then◌else◌, sprint, is_blank, itoa, is_empty, ℕ, ◌+◌, String, Bool, true, false, not, ◌&&◌,
  ◌||◌, Option, none, some, List, [], ◌∷◌, ◌==◌,
}
use icn_nodus.Api.{Network, RoutingNetwork, NetworkChaining, virtual_mode}
use icn_nodus.Api.Cluster.{crd_client, networks_by_label, network_by_name}
use icn_nodus.Effect.{Error, message, M, ◌>>=◌, ◌>>◌, pure, raise, index, for_each}
use icn_nodus.Effect.Requests.{request}
use icn_nodus.Pool.{create_network_from_pool}
use icn_nodus.Chain.{
  deployments_of, head_label, last_label, inner_labels, from_char, chain_labels, is_net_label,
  the_only,
}
use icn_nodus.Chain.Waiting.{deployments_running}

-- CheckNetFromLabel: a network that no object has is taken from the pool
unfoldable pub check_net_from_label : String → M (Unit {0})
check_net_from_label label = do
  request crd_client
  nets ← request (networks_by_label label)
  if is_empty nets then (from_char 4 label >>= create_network_from_pool) else pure tt

-- One label in the loop of CheckNetForNetPool
unfoldable pub check_label : String → M (Unit {0})
check_label label = do net ← is_net_label label; if net then check_net_from_label label else pure tt

-- CheckNetForNetPool
unfoldable pub check_net_for_net_pool : NetworkChaining → M (Unit {0})
check_net_for_net_pool cr = for_each (chain_labels cr) check_label

-- The loop that looks for a net label.
unfoldable pub any_net_label : List String → M Bool
any_net_label [] = pure false
any_net_label (label ∷ labels) = do
  net ← is_net_label label
  elim net [ true ↦ pure true | false ↦ any_net_label labels ]

-- fmt.Sprintf("%s=%s%s", "net", "virtual-net", strconv.Itoa(i))
unfoldable pub virtual_net : ℕ → String
virtual_net i = sprint ("net" ∷ "=" ∷ "virtual-net" ∷ itoa i ∷ [])

-- The rounds after the first of the loop of CheckForOnlyNFLabel, from round i.
unfoldable pub extend_chain : ℕ → String → List String → String
extend_chain i updated [] = updated
extend_chain i updated (nf ∷ nfs) =
    extend_chain (i + 1) (sprint (updated ∷ "," ∷ nf ∷ "," ∷ virtual_net (i + 1) ∷ [])) nfs

unfoldable pub updated_chain : List String → String
updated_chain [] = ""
updated_chain (nf ∷ nfs) =
    extend_chain 1 (sprint (sprint (virtual_net 0 ∷ "," ∷ nf ∷ []) ∷ "," ∷ virtual_net 1 ∷ [])) nfs

-- CheckForOnlyNFLabel: the chain with networks put between its functions, if it names none. The error
-- for an empty text is kept, although a split always has a part.
unfoldable pub check_for_only_nf_label : NetworkChaining → M (Option String)
check_for_only_nf_label cr = do
  has_net ← any_net_label (chain_labels cr)
  let updated = updated_chain (chain_labels cr)
  if has_net
      then pure none
      else if is_blank updated
      then raise (message "Error in updating sfc chain")
      else pure (some updated)

-- ValidateNetworkChaining: the mode, which is virtual where the first and the last label select a network
unfoldable pub validate_network_chaining : NetworkChaining → M String
validate_network_chaining cr = do
  if is_empty cr.left_network || is_empty cr.right_network
      then raise (message "Error - size of left and size of right")
      else pure tt
  request crd_client
  head ← head_label (chain_labels cr)
  heads ← request (networks_by_label head)
  last ← last_label (chain_labels cr)
  tails ← request (networks_by_label last)
  pure (if not (is_empty heads) && not (is_empty tails) then virtual_mode else "")

abbrev no_virtual_network : String → Error
no_virtual_network label =
    message (sprint ("Virtual network is not available for the networklabel - " ∷ label ∷ []))

-- The one network that a label selects.
unfoldable pub network_with_label : String → M Network
network_with_label label = do
  nets ← request (networks_by_label label)
  the_only (no_virtual_network label) nets

-- configureNetworkFromLabel; a network without a subnet makes it panic
unfoldable pub configure_network_from_label : String → M RoutingNetwork
configure_network_from_label label = do
  request crd_client
  net ← network_with_label label
  subnet ← index net.ipv4_subnets 0
  pure (record {
    network_name = net.name;
    gateway_ip = subnet.exclude_ips;
    subnet = subnet.subnet;
    pod_selector = [];
    namespace_selector = [];
  })

-- The loop of CalculateDstforTail.
unfoldable pub subnets_of : List String → M (List String)
subnets_of [] = pure []
subnets_of (n ∷ ns) = do
  net ← request (network_by_name n)
  subnet ← index net.ipv4_subnets 0
  rest ← subnets_of ns
  pure (subnet.subnet ∷ rest)

-- CalculateDstforTail
unfoldable pub calculate_dst_for_tail : List String → M (List String)
calculate_dst_for_tail names = do request crd_client; subnets_of names

-- The loop of DerivedNetworkFromNetworklist.
unfoldable pub names_of : List String → M (List String)
names_of [] = pure []
names_of (label ∷ labels) = do
  net ← network_with_label label
  rest ← names_of labels
  pure (net.name ∷ rest)

-- DerivedNetworkFromNetworklist
unfoldable pub derived_networks : List String → M (List String)
derived_networks labels = do request crd_client; names_of labels

-- `if mode == VirtualMode { chains = chains[1 : len(chains)-1] }`
unfoldable pub middle_labels : String → List String → M (List String)
middle_labels mode chains = if mode == virtual_mode then inner_labels chains else pure chains

-- CheckSFCPodLabelStatus: whether the pods of all deployments are running
unfoldable pub check_sfc_pod_label_status : NetworkChaining → M Bool
check_sfc_pod_label_status cr = do
  mode ← validate_network_chaining cr
  chains ← middle_labels mode (chain_labels cr)
  deployments_running false (deployments_of chains)
