-- ===== src/Chain/Attach.antt =====
-- internal/pkg/utils/chain.go: the networks in a pod's annotation, and the one that a chain adds to it.
use Prim.Native.String.{[], ◌∷◌}
use icn_nodus.Common.{
  if◌then◌else◌, is_some, sprint, is_blank, itoa, ℕ, ◌+◌, String, Bool, true, false, Option, none,
  some, List, [], ◌∷◌, ◌==◌,
}
use icn_nodus.Api.{lookup, Pod, NetFields}
use icn_nodus.Effect.{Error, message, external, M, ◌>>=◌, ◌>>◌, pure, raise, ask}
use icn_nodus.Effect.Requests.{request}
use icn_nodus.Kube.{without_backslashes, append_annotation_on_pod}
use icn_nodus.Ovn.Network.{get_ovn_controller}
use icn_nodus.Ovn.Interfaces.{
  NetInterface, decode, blank_interface, ovn4nfv_annotation_tag, add_logical_ports,
}
use icn_nodus.Controller.PodController.{nfn_network_annotation}
use icn_nodus.Api.Cluster.{kube_client}

abbrev networks_or_error :
    Option (String × List (Option NetFields)) → M (String × List (Option NetFields))
networks_or_error none = raise (external "invalid JSON")
networks_or_error (some networks) = pure networks

-- json.Unmarshal into nfnNet
unfoldable pub nfn_net : String → M (String × List (Option NetFields))
nfn_net text = do parsed ← ask (λ env _. env.parse_networks text); networks_or_error parsed

-- The loop of IsPodNetwork over the interfaces, which all decode into one variable.
unfoldable pub has_network : String → NetInterface → List (Option NetFields) → M Bool
has_network networkname net [] = pure false
has_network networkname net (none ∷ rest) = raise (external "mapstruct error")
has_network networkname net (some f ∷ rest) = elim ((decode f net).name == networkname) [
  | true ↦ pure true
  | false ↦ has_network networkname (decode f net) rest
]

abbrev network_in : String → Option String → M Bool
network_in networkname none = pure false
network_in networkname (some text) = do
  nfn ← nfn_net text
  if nfn.0 == "ovn4nfv" then has_network networkname blank_interface nfn.1 else pure false

-- IsPodNetwork
unfoldable pub is_pod_network : Pod → String → M Bool
is_pod_network pod networkname =
    network_in networkname (lookup nfn_network_annotation pod.annotations)

-- The interface of a chain's network, through JSON into a map: all fields are there.
abbrev pub chain_fields : String → String → NetFields
chain_fields ifname networkname = record {
  name = some networkname;
  interface = some ifname;
  net_type = some "";
  default_gateway = some "";
  ip_address = some "";
  mac_address = some "";
  gw_ip_address = some "";
}

abbrev empty_annotation : Error
empty_annotation = message "requested annotation value from the AddLogicalPorts() can't be empty"

abbrev append_annotation : Pod → Bool → String × String → M String
append_annotation pod to_delete (key, value) = do
  if is_blank value then raise empty_annotation else pure tt
  if to_delete then pure tt else (request kube_client >> append_annotation_on_pod pod key value)
  pure (without_backslashes value)

-- buildNfnAnnotations: the annotation of the pod's new interface, which is added to the pod unless the
-- chain is deleted. A pod without interfaces of its own is left alone.
unfoldable pub build_nfn_annotations : Pod → String → String → Bool → M String
build_nfn_annotations pod ifname networkname to_delete =
    if is_some (lookup ovn4nfv_annotation_tag pod.annotations)
    then (do
      get_ovn_controller
      out ← add_logical_ports pod (some (chain_fields ifname networkname) ∷ []) true
      append_annotation pod to_delete out)
    else pure ""

-- The k-th name of GetSFCNetworkIfname.
unfoldable pub sfc_ifname : ℕ → String
sfc_ifname k = sprint ("sn" ∷ itoa k ∷ [])

-- The loop of AddPodNetworkAnnotations: the number of the name that is left after one pass.
unfoldable pub next_ifname : ℕ → NetInterface → List (Option NetFields) → M ℕ
next_ifname k net [] = pure k
next_ifname k net (none ∷ rest) = raise (external "mapstruct error")
next_ifname k net (some f ∷ rest) =
    next_ifname (if (decode f net).interface == sfc_ifname k then k + 1 else k) (decode f net) rest

abbrev ifname_for : Option String → M ℕ
ifname_for none = pure 0
ifname_for (some text) = do nfn ← nfn_net text; next_ifname 0 blank_interface nfn.1

-- AddPodNetworkAnnotations
unfoldable pub add_pod_network_annotations : Pod → String → Bool → M String
add_pod_network_annotations pod networkname to_delete = do
  k ← ifname_for (lookup nfn_network_annotation pod.annotations)
  build_nfn_annotations pod (sfc_ifname k) networkname to_delete
