-- ===== src/Controller/PodController.antt =====
-- pkg/controller/pod/pod_controller.go: the reconciler of pods. The filter of the pods' events is not
-- modelled.
pub mod Gone
use Prim.Native.String
use icn_nodus.Common.{
  if◌then◌else◌, is_some, sprint, is_blank, String, Bool, true, false, ◌||◌, Option, none, some,
  List, [], ◌∷◌, ◌==◌,
}
use icn_nodus.Effect.{
  Error, message, external, get_pod, annotate_pod, Env, M, ◌>>=◌, ◌>>◌, pure, raise, attempt, ask,
  of_result, log,
}
use icn_nodus.Api.{lookup, Pod, NetFields}
use icn_nodus.Ovn.Network.{get_ovn_controller}
use icn_nodus.Ovn.Interfaces.{ovn4nfv_annotation_tag, add_logical_ports}
use icn_nodus.Ovn.Removal.{delete_logical_ports}
use icn_nodus.Controller.{write}

abbrev pub nfn_network_annotation : String
nfn_network_annotation = "k8s.plugin.opnfv.org/nfn-network"

abbrev parsed_networks : Env → Option String → String × List (Option NetFields)
parsed_networks env none = ("ovn4nfv", [])
parsed_networks env (some text) = elim (env.parse_networks text) [
  | none ↦ ("ovn4nfv", [])
  | some networks ↦ networks
]

-- readPodAnnotation, and what addLogicalPorts takes in place of an annotation that is missing or does
-- not parse: the flag for the default interface is always set.
unfoldable pub read_networks : Env → Pod → String × List (Option NetFields)
read_networks env pod = parsed_networks env (lookup nfn_network_annotation pod.annotations)

abbrev pub failed_to_add : Error
failed_to_add = message "Failed to add ports"

abbrev annotate : Pod → String × String → M (Unit {0})
annotate pod (key, value) =
    if is_blank key then raise failed_to_add else write (annotate_pod pod key value)

unfoldable pub add_ovn_ports : Pod → List (Option NetFields) → M (Unit {0})
add_ovn_ports pod networks = do
  get_ovn_controller
  if is_some (lookup ovn4nfv_annotation_tag pod.annotations)
      then raise (message "Pod annotation found")
      else (add_logical_ports pod networks false >>= annotate pod)

-- addLogicalPorts
unfoldable pub add_pod_ports : Pod → M (Unit {0})
add_pod_ports pod = do
  nfn ← ask (λ env _. read_networks env pod)
  if nfn.0 == "ovn4nfv"
      then add_ovn_ports pod nfn.1
      else raise (message (sprint ("Unsupported Networking type " ∷ nfn.0 ∷ [])))

-- deleteLogicalPorts
unfoldable pub delete_pod_ports : String → String → M (Unit {0})
delete_pod_ports name namespace = do get_ovn_controller; delete_logical_ports name namespace

-- checkforsfc, which reads the pod again
unfoldable pub check_for_sfc : Pod → M (Unit {0})
check_for_sfc pod = do
  answer ← ask (λ env trace. env.pod_named trace pod.name pod.namespace)
  log (get_pod pod.name pod.namespace)
  found ← of_result answer
  if is_some found then pure tt else raise (external "not found")

abbrev is_failed_to_add : Error → Bool
is_failed_to_add (message s) = s == "Failed to add ports"
is_failed_to_add (external s) = s == "Failed to add ports"

-- Only the error of ports that were not added goes back.
abbrev only_failed : Option Error → M (Unit {0})
only_failed none = pure tt
only_failed (some e) = if is_failed_to_add e then raise e else pure tt

unfoldable pub add_ready_pod : Pod → M Bool
add_ready_pod pod = do e ← attempt (add_pod_ports pod); only_failed e; check_for_sfc pod; pure false

-- An error of the deletion is dropped.
unfoldable pub forget_pod : String → String → M Bool
forget_pod name namespace = do _ ← attempt (delete_pod_ports name namespace); pure false

unfoldable pub reconcile_pod_found : Pod → M Bool
reconcile_pod_found pod =
    if is_blank pod.name || is_blank pod.namespace
    then pure false
    else if pod.deleting
    then forget_pod pod.name pod.namespace
    else if pod.host_network
    then pure false
    else if is_blank pod.node_name
    then pure true
    else add_ready_pod pod

abbrev pub found_or_gone : String → String → Option Pod → M Bool
found_or_gone name namespace none = forget_pod name namespace
found_or_gone name namespace (some pod) = reconcile_pod_found pod

-- Reconcile: whether the request is put back into the queue
unfoldable pub reconcile_pod : String → String → M Bool
reconcile_pod name namespace = do
  answer ← ask (λ env trace. env.pod_named trace name namespace)
  log (get_pod name namespace)
  found ← of_result answer
  found_or_gone name namespace found
