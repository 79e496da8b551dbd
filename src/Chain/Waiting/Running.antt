-- ===== src/Chain/Waiting/Running.antt =====
-- internal/pkg/utils/chain.go: what it says of a chain's pods that CheckSFCPodLabelStatus returns true.
use icn_nodus.Common.{All, String, ◌≡◌, Bool, true, false, Option, none, some, List, [], ◌∷◌}
use icn_nodus.Api.{NetworkChaining, Pod}
use icn_nodus.Api.Cluster.{kube_client, pods_by_label, pod_by_name}
use icn_nodus.Effect.{ok, Event, Env, World, done, pure, raise}
use icn_nodus.Effect.Requests.{request, request-answer}
use icn_nodus.Effect.Inverse.{>>=-eq-done, done-eq-done}
use icn_nodus.Chain.Waiting.{is_running, deployment_running, unless_stopped, deployments_running}
use icn_nodus.Chain.{deployments_of, chain_labels}
use icn_nodus.Chain.Networks.{validate_network_chaining, middle_labels, check_sfc_pod_label_status}

-- The label selected one pod of the default namespace, and this pod was read as running.
pub record Runs (env : Env) (label : String) : Type 0 where
  pub pod : Pod
  pub now : Pod
  pub listed : List Event
  pub read : List Event
  pub selected : env.cluster listed (pods_by_label "default" label) ≡ ok (pod ∷ [])
  pub answered : env.cluster read (pod_by_name "default" pod.name) ≡ ok now
  pub running : is_running now ≡ true

module _ (env : Env) where
  deployment_running-Runs :
      (label : String) (pods : List Pod) (history : List Event) (w v : World)
      → env.cluster history (pods_by_label "default" label) ≡ ok pods
      → deployment_running pods env w ≡ done (some true) v
      → Runs env label
  unfolding deployment_running pure raise
  deployment_running-Runs label [] history w v e h = cc
  deployment_running-Runs label (pod ∷ []) history w v e h =
      let (now, u, p, q) =
        >>=-eq-done (request (pod_by_name "default" pod.name)) _ env w (some true) v h in
      record {
        pod = pod;
        now = now;
        listed = history;
        read = w.trace;
        selected = e;
        answered = request-answer (pod_by_name "default" pod.name) env w u now p;
        running = some-injective (done-eq-done q).0;
      }
    where
      some-injective : {a b : Bool} → some a ≡ some b → a ≡ b
      some-injective h = cc
  deployment_running-Runs label (pod ∷ other ∷ rest) history w v e h = cc

  Runs-cons :
      (label : String) (labels : List String) (pods : List Pod) (history : List Event)
      (state : Option Bool) (w u v : World)
      → env.cluster history (pods_by_label "default" label) ≡ ok pods
      → deployment_running pods env w ≡ done state u
      → ((x : World) → deployments_running true labels env x ≡ done true v → All (Runs env) labels)
      → unless_stopped (deployments_running true labels) state env u ≡ done true v
      → All (Runs env) (label ∷ labels)
  unfolding pure
  Runs-cons label labels pods history none w u v e p ih h = cc
  Runs-cons label labels pods history (some false) w u v e p ih h = cc
  Runs-cons label labels pods history (some true) w u v e p ih h =
      (deployment_running-Runs label pods history w u e p, ih u h)

  deployments_running-Runs :
      (b : Bool) (labels : List String) (w v : World)
      → deployments_running b labels env w ≡ done true v
      → All (Runs env) labels
  unfolding deployments_running
  deployments_running-Runs b [] w v h = tt
  deployments_running-Runs b (label ∷ labels) w v h =
      let (_, u, p, q) = >>=-eq-done (request kube_client) _ env w true v h in
      let (pods, u1, p1, q1) =
        >>=-eq-done (request (pods_by_label "default" label)) _ env u true v q in
      let (state, u2, p2, q2) = >>=-eq-done (deployment_running pods) _ env u1 true v q1 in
      Runs-cons label labels pods u.trace state u1 u2 v
        (request-answer (pods_by_label "default" label) env u u1 pods p1) p2
        (λ x e. deployments_running-Runs true labels x v e) q2

-- If CheckSFCPodLabelStatus returns true, then each function of the chain has one pod, which was read
-- as running. The functions are those of the chain's labels, without the first and the last in virtual
-- mode.
pub check_sfc_pod_label_status-Runs :
    (cr : NetworkChaining) (env : Env) (w v : World)
    → check_sfc_pod_label_status cr env w ≡ done true v
    → (mode : String) × (labels : List String) × (u : World) × (u' : World)
      × (validate_network_chaining cr env w ≡ done mode u)
      × (middle_labels mode (chain_labels cr) env u ≡ done labels u')
      × All (Runs env) (deployments_of labels)
unfolding check_sfc_pod_label_status
check_sfc_pod_label_status-Runs cr env w v h =
    let (mode, u, p, q) = >>=-eq-done (validate_network_chaining cr) _ env w true v h in
    let (labels, u1, p1, q1) =
      >>=-eq-done (middle_labels mode (chain_labels cr)) _ env u true v q in
    (mode, labels, u, u1, p, p1, deployments_running-Runs env false (deployments_of labels) u1 v q1)
