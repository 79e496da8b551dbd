-- ===== src/Chain/Selectors/Partition.antt =====
-- internal/pkg/utils/chain.go: the pods of a side of a chain, each in one of the two lists.
use icn_nodus.Common.{
  if◌then◌else◌, Bool-cases, String, ◌≡◌, refl, inl, inr, Bool, true, false, List, [], ◌∷◌,
}
use icn_nodus.Api.{Route, RoutingInfo, PodNetworkInfo, Pod}
use icn_nodus.Effect.{Env, World, done, pure}
use icn_nodus.Effect.Returns.{Returns, Returns-pure, Returns-bind, Returns-rest}
use icn_nodus.Chain.Attach.{is_pod_network, add_pod_network_annotations}
use icn_nodus.Chain.Selectors.{
  Collected, both, is_configured, container_id_of, routed_pod, attached_pod, one_list, collect_pod,
  mark_created, configure_pod, configure_pods,
}

-- The routes of the pod, and the network that it is given, with the routes.
pub record IsRouted (pod : Pod) (routes : List Route) (r : RoutingInfo) : Type 0 where
  pub name : r.name ≡ pod.name
  pub namespace : r.namespace ≡ pod.namespace
  pub node : r.node ≡ pod.node_name
  pub dynamic : r.dynamic_network_routes ≡ routes

pub record IsAttached (pod : Pod) (routes : List Route) (p : PodNetworkInfo) : Type 0 where
  pub name : p.name ≡ pod.name
  pub namespace : p.namespace ≡ pod.namespace
  pub node : p.node ≡ pod.node_name
  pub route : p.route ≡ routes

module _ (to_delete : Bool) (routes : List Route) where
  -- Each pod is skipped because it is configured, or is in one of the lists, which keep the pods' order.
  pub data Splits : List Pod → List RoutingInfo → List PodNetworkInfo → Type 0 where
    nil : Splits [] [] []
    skipped :
        (pod : Pod) (pods : List Pod) (rt : List RoutingInfo) (pni : List PodNetworkInfo)
        → is_configured to_delete pod ≡ true
        → Splits pods rt pni
        → Splits (pod ∷ pods) rt pni
    routed :
        (pod : Pod) (r : RoutingInfo) (pods : List Pod) (rt : List RoutingInfo)
        (pni : List PodNetworkInfo)
        → is_configured to_delete pod ≡ false
        → IsRouted pod routes r
        → Splits pods rt pni
        → Splits (pod ∷ pods) (r ∷ rt) pni
    attached :
        (pod : Pod) (p : PodNetworkInfo) (pods : List Pod) (rt : List RoutingInfo)
        (pni : List PodNetworkInfo)
        → is_configured to_delete pod ≡ false
        → IsAttached pod routes p
        → Splits pods rt pni
        → Splits (pod ∷ pods) rt (p ∷ pni)

  -- What one pod adds to the lists.
  data Adds (pod : Pod) : Collected → Type 0 where
    nothing : is_configured to_delete pod ≡ true → Adds pod ([], [])
    route :
        (r : RoutingInfo)
        → is_configured to_delete pod ≡ false
        → IsRouted pod routes r
        → Adds pod (r ∷ [], [])
    network :
        (p : PodNetworkInfo)
        → is_configured to_delete pod ≡ false
        → IsAttached pod routes p
        → Adds pod ([], p ∷ [])

  one_list-Adds :
      (pod : Pod) (id netinfo : String)
      → is_configured to_delete pod ≡ false
      → (has : Bool)
      → Adds pod (one_list has (routed_pod pod id routes) (attached_pod pod id netinfo routes))
  one_list-Adds pod id netinfo c true =
      route _ c (record { name = refl; namespace = refl; node = refl; dynamic = refl })
  one_list-Adds pod id netinfo c false =
      network _ c (record { name = refl; namespace = refl; node = refl; route = refl })

  abbrev AllSplit : List Pod → Collected → Type 0
  AllSplit pods c = Splits pods c.0 c.1

  Adds-Splits :
      (pod : Pod) (pods : List Pod) (found rest : Collected)
      → Adds pod found
      → AllSplit pods rest
      → AllSplit (pod ∷ pods) (both found rest)
  Adds-Splits pod pods found (rt, pni) (nothing c) h = skipped pod pods rt pni c h
  Adds-Splits pod pods found (rt, pni) (route r c i) h = routed pod r pods rt pni c i h
  Adds-Splits pod pods found (rt, pni) (network p c i) h = attached pod p pods rt pni c i h

  module _ (networkname : String) where
    collect_pod-Adds :
        (pod : Pod)
        → is_configured to_delete pod ≡ false
        → Returns (Adds pod) (collect_pod pod networkname routes to_delete)
    unfolding collect_pod
    collect_pod-Adds pod c = Returns-rest (is_pod_network pod networkname) _ λ has.
        Returns-rest
          (if has then pure "" else add_pod_network_annotations pod networkname to_delete) _
          λ netinfo.
            Returns-rest (container_id_of pod) _
              λ id. Returns-pure _ (one_list-Adds pod id netinfo c has)

    configure_pod-Adds :
        (pod : Pod) → Returns (Adds pod) (configure_pod networkname routes to_delete pod)
    unfolding configure_pod
    configure_pod-Adds pod = elim (Bool-cases (is_configured to_delete pod)) [
      | inl e ↦ rw e (Returns-pure ([], []) (nothing e))
      | inr e ↦ rw e (
          Returns-bind (collect_pod pod networkname routes to_delete) _ (collect_pod-Adds pod e)
            λ found h. Returns-rest (mark_created to_delete pod) _ λ _. Returns-pure found h)
    ]

    configure_pods-AllSplit :
        (pods : List Pod)
        → Returns (AllSplit pods) (configure_pods networkname routes to_delete pods)
    unfolding configure_pods
    configure_pods-AllSplit [] = Returns-pure ([], []) nil
    configure_pods-AllSplit (pod ∷ pods) =
        Returns-bind (configure_pod networkname routes to_delete pod) _ (configure_pod-Adds pod)
          λ found h.
            Returns-bind (configure_pods networkname routes to_delete pods) _
              (configure_pods-AllSplit pods)
              λ rest k. Returns-pure (both found rest) (Adds-Splits pod pods found rest h k)

-- The lists that the loop over the pods of a namespace returns: a pod that has the annotation of a chain
-- is skipped unless the chain is deleted; any other is in one of the lists, in the order of the pods,
-- with its name, namespace and node, and with the given routes.
pub configure_pods-Splits :
    (networkname : String) (routes : List Route) (to_delete : Bool) (pods : List Pod) (env : Env)
    (w v : World) (rt : List RoutingInfo) (pni : List PodNetworkInfo)
    → configure_pods networkname routes to_delete pods env w ≡ done (rt, pni) v
    → Splits to_delete routes pods rt pni
configure_pods-Splits networkname routes to_delete pods env w v rt pni h =
    (configure_pods-AllSplit to_delete routes networkname pods).holds env w v (rt, pni) h
