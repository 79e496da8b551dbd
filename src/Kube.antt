-- ===== src/Kube.antt =====
-- internal/pkg/kube/kube.go: the annotations of pods and the cluster's networks. JSON and the patch are
-- the client's.
use icn_nodus.Common.{
  if◌then◌else◌, is_some, is_blank, String, Bool, ◌&&◌, Option, none, some, List, ◌++◌,
}
use icn_nodus.Api.{Labels, lookup, Pod}
use icn_nodus.Api.Cluster.{
  Networking, pod_by_name, cluster_networking, patch_annotation, update_annotation,
}
use icn_nodus.Effect.{Error, message, M, ◌>>=◌, ◌>>◌, pure, raise, attempt, ask}
use icn_nodus.Effect.Requests.{request}
use icn_nodus.Ovn.PodAddress.{without_char}

unfoldable pub set_annotation_on_pod : Pod → String → String → M (Unit {0})
set_annotation_on_pod pod key value =
    request (patch_annotation pod.namespace pod.name key value) >> pure tt

abbrev parsed_items : String → Option (List String) → M (List String)
parsed_items text none = raise (message text)
parsed_items text (some items) = pure items

abbrev or_empty : Option String → String
or_empty none = ""
or_empty (some s) = s

-- strings.ReplaceAll(s, "\\", "")
unfoldable pub without_backslashes : String → String
without_backslashes s = without_char 92 s

-- The new interfaces in front of those that the annotation lists, in AppendAnnotationOnPod.
unfoldable pub appended_annotation : Labels → String → String → M String
appended_annotation annotations key value = do
  current ← ask (λ env _. env.json_items (or_empty (lookup key annotations)))
  old ← parsed_items "error in unmarshalling current pod annotation" current
  added ← ask (λ env _. env.json_items (without_backslashes value))
  new ← parsed_items "error in unmarshalling new annotation value created" added
  ask (λ env _. env.json_list (new ++ old))

abbrev status_failed : Error
status_failed = message "status update failed for pod"

-- AppendAnnotationOnPod. The retries on a conflict are the client's.
unfoldable pub append_annotation_on_pod : Pod → String → String → M (Unit {0})
append_annotation_on_pod pod key value = do
  text ← appended_annotation pod.annotations key value
  failed ← attempt (do
    _ ← request (pod_by_name pod.namespace pod.name)
    request (update_annotation pod.namespace pod.name key text))
  if is_some failed then raise status_failed else pure tt
  _ ← request (pod_by_name pod.namespace pod.name)
  pure tt

abbrev no_networking : Networking → Bool
no_networking n = is_blank n.service_subnet && is_blank n.pod_subnet && is_blank n.dns_domain

unfoldable pub get_control_plane_service_ip_range : M Networking
get_control_plane_service_ip_range = do
  networking ← request cluster_networking
  if no_networking networking
      then raise (message "kubeadm network value is empty")
      else pure networking
