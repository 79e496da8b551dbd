-- ===== src/Controller/PodController/Gone.antt =====
-- What pkg/controller/pod/pod_controller.go does with a pod that is gone.
use icn_nodus.Common.{
  if◌then◌else◌, sprint, is_blank, String, ◌≡◌, refl, ap, ◌∙◌, ◌⊎◌, inl, inr, Bool, true, false,
  ◌||◌, Option, none, some, [], ◌∷◌,
}
use icn_nodus.Api.{Pod}
use icn_nodus.Effect.{
  ok, nbctl, get_pod, Env, World, done, M, continue, ◌>>=◌, pure, error_of, attempt, effects,
}
use icn_nodus.Effect.Sequence.{issue}
use icn_nodus.Ovn.Exec.{ovs_command_timeout, nbctl_reply}
use icn_nodus.Ovn.Network.Commands.{given_controller}
use icn_nodus.Ovn.Removal.{list_ports_args, delete_logical_ports}
use icn_nodus.Ovn.Removal.Deleting.{deletions, delete_logical_ports-run}
use icn_nodus.Controller.PodController.{
  delete_pod_ports, forget_pod, reconcile_pod_found, found_or_gone, reconcile_pod,
}

-- The world after the ports of a pod were listed and the matching ones deleted.
abbrev pub ports_deleted : String → String → Env → World → World
ports_deleted name namespace env w = record w {
  trace =
      issue
        (deletions (sprint (namespace ∷ "_" ∷ name ∷ []))
          (nbctl_reply env w.trace ovs_command_timeout list_ports_args))
        (nbctl list_ports_args ∷ w.trace);
}

abbrev pub pod_read : String → String → World → World
pod_read name namespace w = record w { trace = get_pod name namespace ∷ w.trace }

forget_pod-run :
    (name namespace : String) (env : Env) (w : World)
    → w.controller ≡ true
    → forget_pod name namespace env w ≡ done false (ports_deleted name namespace env w)
unfolding forget_pod delete_pod_ports ◌>>=◌ attempt pure
forget_pod-run name namespace env w h =
    ap (λ r. continue (error_of r) (λ _. pure false) env)
      (given_controller (delete_logical_ports name namespace) env w h
        ∙ delete_logical_ports-run name namespace env w)

-- The cluster has no such pod, or the pod is marked as deleted.
abbrev pub IsGone : String → String → Env → World → Type 0
IsGone name namespace env w =
    (env.pod_named w.trace name namespace ≡ ok none)
    ⊎ ((pod : Pod) × (env.pod_named w.trace name namespace ≡ ok (some pod))
        × (pod.deleting ≡ true)
        × ((is_blank pod.name || is_blank pod.namespace) ≡ false)
        × (pod.name ≡ name)
        × (pod.namespace ≡ namespace))

reconcile_pod-found :
    (name namespace : String) (env : Env) (w : World) (found : Option Pod)
    → env.pod_named w.trace name namespace ≡ ok found
    → reconcile_pod name namespace env w
      ≡ found_or_gone name namespace found env (pod_read name namespace w)
unfolding reconcile_pod effects
reconcile_pod-found name namespace env w found h = rw (h) refl

reconcile_pod_found-deleting :
    (pod : Pod)
    → pod.deleting ≡ true
    → (is_blank pod.name || is_blank pod.namespace) ≡ false
    → reconcile_pod_found pod ≡ forget_pod pod.name pod.namespace
unfolding reconcile_pod_found
reconcile_pod_found-deleting pod d b = second _ _ _ _ _ b d
  where
    second :
        (a c : Bool) (x y z : M Bool)
        → a ≡ false
        → c ≡ true
        → (if a then x else if c then y else z) ≡ y
    second true c x y z p q = cc
    second false true x y z p q = refl
    second false false x y z p q = cc

-- For a pod that is gone, where the OVN controller is set up, the reconciliation reads the pod, lists the
-- pods' ports and, if the listing succeeds, deletes the ones with "namespace_name" in their names, nothing
-- else; it succeeds whatever the commands reply, and the request is not put back.
pub reconcile_pod-gone :
    (name namespace : String) (env : Env) (w : World)
    → w.controller ≡ true
    → IsGone name namespace env w
    → reconcile_pod name namespace env w
      ≡ done false (ports_deleted name namespace env (pod_read name namespace w))
reconcile_pod-gone name namespace env w c (inl h) =
    reconcile_pod-found name namespace env w none h
    ∙ forget_pod-run name namespace env (pod_read name namespace w) c
reconcile_pod-gone name namespace env w c (inr (pod, h, d, b, n, ns)) =
    reconcile_pod-found name namespace env w (some pod) h
    ∙ ap (λ m. m env (pod_read name namespace w))
        (reconcile_pod_found-deleting pod d b
          ∙ ap (λ x. forget_pod x pod.namespace) n
          ∙ ap (forget_pod name) ns)
    ∙ forget_pod-run name namespace env (pod_read name namespace w) c
