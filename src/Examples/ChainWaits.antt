-- ===== src/Examples/ChainWaits.antt =====
-- The theorems on waits and labels in chains at concrete data.
use icn_nodus.Common.{any, ℕ, zero, suc, ◌≤◌, ◌≡◌, refl, List, [], ◌∷◌, arith}
use icn_nodus.Api.{NetworkChaining, Labels, Pod}
use icn_nodus.Api.Cluster.{Request, kube_client, pods_by_label, pod_by_name, Reply}
use icn_nodus.Effect.{Result, ok, Event, Env, World, done}
use icn_nodus.Chain.Waiting.{check_pod_status_from_pod_label}
use icn_nodus.Chain.Waiting.Liveness.{
  readings, IsReady, Settles, check_pod_status_from_pod_label-done,
}
use icn_nodus.Chain.Matching.{same_entry, compare_each_label, chain_for_pod}
use icn_nodus.Chain.Matching.Shared.{compare_each_label-any, Chosen, chain_for_pod-Chosen}
use icn_nodus.Examples.{refuse_all, printing, fresh}
use icn_nodus.Examples.Chains.{nf_pod, side, sfc}

abbrev starting : Pod
starting = record nf_pod { phase = "Pending" }

-- The pod runs from its second reading on.
abbrev reading_number : ℕ → Pod
reading_number zero = starting
reading_number (suc k) = nf_pod

abbrev slow_reply : List Event → (r : Request) → Result (Reply r)
slow_reply history (pod_by_name ns name) = ok (reading_number (readings "nf1" history))
slow_reply history kube_client = ok tt
slow_reply history (pods_by_label ns selector) = ok (nf_pod ∷ [])
slow_reply history r = refuse_all r

abbrev slow : Env
slow = record (printing "") { cluster = slow_reply }

reading_number-IsReady : (k : ℕ) → 1 ≤ k → IsReady (reading_number k)
reading_number-IsReady zero h = absurd (omega arith)
reading_number-IsReady (suc k) h = (refl, refl)

slow-Settles : Settles slow "app=nf1" nf_pod 1
slow-Settles = record {
  connects = λ history. refl;
  selects = λ history. refl;
  reads = λ history. reading_number (readings "nf1" history);
  answers = λ history. refl;
  ready = λ history h. reading_number-IsReady (readings "nf1" history) h;
}

check_pod_status_from_pod_label-done_example :
    (v : World) × (check_pod_status_from_pod_label "app=nf1" slow fresh ≡ done nf_pod.name v)
check_pod_status_from_pod_label-done_example =
    check_pod_status_from_pod_label-done slow "app=nf1" nf_pod 1 fresh slow-Settles (omega arith)

abbrev pod_labels : Labels
pod_labels = ("app", "web") ∷ ("tier", "front") ∷ []

abbrev selector_labels : Labels
selector_labels = ("app", "web") ∷ ("tier", "back") ∷ []

compare_each_label-any_example :
    compare_each_label selector_labels pod_labels
    ≡ any (λ e. any (same_entry e) pod_labels) selector_labels
compare_each_label-any_example = compare_each_label-any selector_labels pod_labels

abbrev selecting : NetworkChaining
selecting = record sfc {
  left_network =
      record side { pod_selector = selector_labels; namespace_selector = selector_labels } ∷ [];
}

chain_for_pod-Chosen_example :
    Chosen pod_labels pod_labels
      (sfc ∷ selecting ∷ [])
      (chain_for_pod pod_labels pod_labels (sfc ∷ selecting ∷ []))
chain_for_pod-Chosen_example = chain_for_pod-Chosen pod_labels pod_labels (sfc ∷ selecting ∷ [])
