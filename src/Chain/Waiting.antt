-- ===== src/Chain/Waiting.antt =====
-- internal/pkg/utils/chain.go: whether the pods of a chain are running, and the loops that wait for them.
pub mod Liveness
pub mod Running
use icn_nodus.Common.{
  if◌then◌else◌, String, Bool, true, false, ◌&&◌, Option, none, some, List, [], ◌∷◌, ◌==◌,
}
use icn_nodus.Api.{ContainerStatus, Pod}
use icn_nodus.Api.Cluster.{kube_client, pods_by_label, pod_by_name}
use icn_nodus.Effect.{M, ◌>>=◌, ◌>>◌, pure, raise}
use icn_nodus.Effect.Requests.{request, wait_for}
use icn_nodus.Chain.{single_replica, the_only}

-- The first container is there and ready.
abbrev pub first_ready : List ContainerStatus → Bool
first_ready [] = false
first_ready (c ∷ rest) = c.ready

abbrev pub is_running : Pod → Bool
is_running pod = pod.phase == "Running"

unfoldable pub running_pod : Pod → Option Pod
running_pod pod = if is_running pod && first_ready pod.container_statuses then some pod else none

-- checkPodstatus: the pod, if it is running and its first container is ready
unfoldable pub check_pod_status : String → M (Option Pod)
check_pod_status podname = do
  request kube_client
  pod ← request (pod_by_name "default" podname)
  pure (running_pod pod)

-- CheckPodStatusFromPodLabel, which returns the name of the pod that it waited for
unfoldable pub check_pod_status_from_pod_label : String → M String
check_pod_status_from_pod_label label = do
  request kube_client
  pods ← request (pods_by_label "default" label)
  pod ← the_only single_replica pods
  _ ← wait_for (check_pod_status pod.name)
  pure pod.name

-- The loop of checkSFCPodSelectorStatus: the phase is read again for each pod, the containers are those
-- of the listing.
unfoldable pub all_ready : Bool → List Pod → M Bool
all_ready ready [] = pure ready
all_ready ready (pod ∷ pods) = do
  now ← request (pod_by_name pod.namespace pod.name)
  if is_running now && first_ready pod.container_statuses then all_ready true pods else pure false

-- checkSFCPodSelectorStatus: the pods of the listing, if there is one and all of them are ready
unfoldable pub check_sfc_pod_selector_status : String → String → M (Option (List Pod))
check_sfc_pod_selector_status ns label = do
  request kube_client
  pods ← request (pods_by_label ns label)
  ready ← all_ready false pods
  pure (if ready then some pods else none)

-- One deployment in the loop of CheckSFCPodLabelStatus: its pod is running; none where there is no pod.
unfoldable pub deployment_running : List Pod → M (Option Bool)
deployment_running [] = pure none
deployment_running (pod ∷ []) = do
  now ← request (pod_by_name "default" pod.name)
  pure (some (is_running now))
deployment_running (pod ∷ other ∷ rest) = raise single_replica

abbrev pub unless_stopped : M Bool → Option Bool → M Bool
unless_stopped more none = pure false
unless_stopped more (some true) = more
unless_stopped more (some false) = pure false

-- The loop of CheckSFCPodLabelStatus. A deployment with no pod ends it, and so does one whose pod is not
-- running.
unfoldable pub deployments_running : Bool → List String → M Bool
deployments_running running [] = pure running
deployments_running running (label ∷ labels) = do
  request kube_client
  pods ← request (pods_by_label "default" label)
  state ← deployment_running pods
  unless_stopped (deployments_running true labels) state
