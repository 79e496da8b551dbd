-- ===== src/Chain/Waiting/Liveness.antt =====
-- internal/pkg/utils/chain.go: the wait for the pod of a label ends.
use icn_nodus.Common.{
  if◌then◌else◌, Option-cases, ℕ, zero, suc, ◌+◌, ◌≤◌, ◌<◌, String, ◌≡◌, refl, ap, ◌∙◌, inl, inr,
  Bool, true, false, Option, none, some, List, [], ◌∷◌, arith, ◌==◌, eq_refl, dec_lt,
}
use icn_nodus.Api.{Pod}
use icn_nodus.Api.Cluster.{kube_client, pods_by_label, pod_by_name}
use icn_nodus.Effect.{ok, Event, requested, Env, World, done, M, pure}
use icn_nodus.Effect.Requests.{request, repeat_rounds, wait_for, after_request, request-done}
use icn_nodus.Effect.Inverse.{>>=-done}
use icn_nodus.Chain.Waiting.{
  first_ready, is_running, running_pod, check_pod_status, check_pod_status_from_pod_label,
}
use icn_nodus.Chain.{single_replica, the_only}

-- A reading of the named pod.
abbrev pub is_reading : String → Event → Bool
is_reading name (requested (pod_by_name ns n)) = n == name
is_reading name _ = false

-- How often the pod was read.
abbrev pub readings : String → List Event → ℕ
readings name [] = 0
readings name (e ∷ history) =
    if is_reading name e then suc (readings name history) else readings name history

abbrev pub IsReady : Pod → Type 0
IsReady pod = (is_running pod ≡ true) × (first_ready pod.container_statuses ≡ true)

-- The cluster answers each request, the label selects one pod, and this pod is ready from its reading
-- number `n` on, where the first has number 0.
pub record Settles (env : Env) (label : String) (pod : Pod) (n : ℕ) : Type 0 where
  pub connects : (history : List Event) → env.cluster history kube_client ≡ ok tt
  pub selects :
      (history : List Event) → env.cluster history (pods_by_label "default" label) ≡ ok (pod ∷ [])
  pub reads : List Event → Pod
  pub answers :
      (history : List Event)
      → env.cluster history (pod_by_name "default" pod.name) ≡ ok (reads history)
  pub ready : (history : List Event) → n ≤ readings pod.name history → IsReady (reads history)

module _ (env : Env) (label : String) (pod : Pod) (n : ℕ) (s : Settles env label pod n) where
  -- The world after one round of the loop.
  abbrev after_round : World → World
  after_round w = after_request (pod_by_name "default" pod.name) (after_request kube_client w)

  check_pod_status-done :
      (w : World)
      → check_pod_status pod.name env w
        ≡ done (running_pod (s.reads (requested kube_client ∷ w.trace))) (after_round w)
  unfolding check_pod_status pure
  check_pod_status-done w =
      >>=-done (request kube_client) _ env w _ tt
        (request-done kube_client tt env w (s.connects w.trace))
      ∙ >>=-done (request (pod_by_name "default" pod.name)) _ env (after_request kube_client w) _ _
          (request-done (pod_by_name "default" pod.name) _ env (after_request kube_client w)
            (s.answers (requested kube_client ∷ w.trace)))

  readings-after_round :
      (w : World) → readings pod.name (after_round w).trace ≡ suc (readings pod.name w.trace)
  readings-after_round w = rw (eq_refl pod.name) refl

  abbrev reading : World → Pod
  reading w = s.reads (requested kube_client ∷ w.trace)

  abbrev next_round : ℕ → Option Pod → M Pod
  next_round left none = repeat_rounds left (check_pod_status pod.name)
  next_round left (some found) = pure found

  repeat_rounds-suc :
      (left : ℕ) (w : World) (o : Option Pod)
      → running_pod (reading w) ≡ o
      → repeat_rounds (suc left) (check_pod_status pod.name) env w
        ≡ next_round left o env (after_round w)
  unfolding repeat_rounds
  repeat_rounds-suc left w none e =
      >>=-done (check_pod_status pod.name) _ env w (after_round w) none
        (check_pod_status-done w ∙ ap (λ o. done o (after_round w)) e)
  repeat_rounds-suc left w (some found) e =
      >>=-done (check_pod_status pod.name) _ env w (after_round w) (some found)
        (check_pod_status-done w ∙ ap (λ o. done o (after_round w)) e)

  running_pod-ready :
      (w : World) → n ≤ readings pod.name w.trace → running_pod (reading w) ≡ some (reading w)
  unfolding running_pod
  running_pod-ready w h = let (p, q) = s.ready (requested kube_client ∷ w.trace) h in rw (p, q) refl

  -- With a round left, and enough of them for the pod to become ready, the loop ends.
  repeat_rounds-done :
      (left : ℕ) (w : World)
      → 0 < left
      → n < readings pod.name w.trace + left
      → (found : Pod) × (v : World) × (repeat_rounds left (check_pod_status pod.name) env w
          ≡ done found v)
  unfolding pure
  repeat_rounds-done zero w h k = absurd (omega arith)
  repeat_rounds-done (suc left) w h k = elim (Option-cases (running_pod (reading w))) [
    | inr (found, e) ↦ (found, after_round w, repeat_rounds-suc left w (some found) e)
    | inl e ↦ elim (dec_lt (readings pod.name w.trace) n) [
      | no late ↦ (
        reading w,
        after_round w,
        repeat_rounds-suc left w (some (reading w)) (running_pod-ready w (omega arith)),
      )
      | yes early ↦
          let (found, v, p) =
            repeat_rounds-done left (after_round w) (omega arith)
              (omega (arith, readings-after_round w)) in
          (found, v, repeat_rounds-suc left w none e ∙ p)
    ]
  ]

-- If the cluster answers each request, the label selects one pod of the default namespace and this pod
-- is ready from a reading on that comes before the process is stopped, then CheckPodStatusFromPodLabel
-- returns the name of the pod.
pub check_pod_status_from_pod_label-done :
    (env : Env) (label : String) (pod : Pod) (n : ℕ) (w : World)
    → Settles env label pod n
    → n < env.rounds
    → (v : World) × (check_pod_status_from_pod_label label env w ≡ done pod.name v)
unfolding check_pod_status_from_pod_label the_only wait_for pure
check_pod_status_from_pod_label-done env label pod n w s h =
    let w' = after_request kube_client w in
    let listed = pods_by_label "default" label in
    let w'' = after_request listed w' in
    let (found, v, p) =
      repeat_rounds-done env label pod n s env.rounds w'' (omega arith) (omega arith) in
    (
      v,
      >>=-done (request kube_client) _ env w w' tt
            (request-done kube_client tt env w (s.connects w.trace))
          ∙ >>=-done (request listed) _ env w' w'' (pod ∷ [])
              (request-done listed (pod ∷ []) env w' (s.selects w'.trace))
          ∙ >>=-done (the_only single_replica (pod ∷ [])) _ env w'' w'' pod refl
          ∙ >>=-done (wait_for (check_pod_status pod.name)) _ env w'' v found p,
    )
