-- ===== src/Examples/Controllers.antt =====
-- The theorems on the reconcilers at concrete objects.
use icn_nodus.Common.{◌≡◌, refl, inl, true, false, [], ◌∷◌}
use icn_nodus.Api.{Network, network}
use icn_nodus.Effect.{update_object, Env, done}
use icn_nodus.Effect.Emits.{world_of}
use icn_nodus.Controller.{contains_item}
use icn_nodus.Controller.NetworkController.{
  nfn_network_finalizer, with_finalizer, reconcile_instance,
}
use icn_nodus.Controller.Guarded.{StartsWith, reconcile_instance-StartsWith}
use icn_nodus.Controller.Cleanup.{Released, reconcile_instance-Released}
use icn_nodus.Controller.PodController.{reconcile_pod}
use icn_nodus.Controller.PodController.Gone.{ports_deleted, pod_read, reconcile_pod-gone}
use icn_nodus.Examples.{printing, fresh}

abbrev red : Network
red = record {
  name = "red";
  deleting = false;
  finalizers = [];
  cni_type = "ovn4nfv";
  ipv4_subnets = [];
  ipv6_subnets = [];
  state = "";
}

abbrev red_deleted : Network
red_deleted = record red { deleting = true; finalizers = nfn_network_finalizer ∷ [] }

unprotected : contains_item red.finalizers nfn_network_finalizer ≡ false
unfolding contains_item
unprotected = refl

protected : contains_item red_deleted.finalizers nfn_network_finalizer ≡ true
unfolding contains_item
protected = refl

reconcile_instance-StartsWith_example :
    StartsWith
      (update_object (network (with_finalizer red)))
      []
      (world_of (reconcile_instance red (printing "") fresh)).trace
reconcile_instance-StartsWith_example =
    reconcile_instance-StartsWith red (printing "") fresh refl unprotected

reconcile_instance-Released_example :
    Released red_deleted [] (world_of (reconcile_instance red_deleted (printing "") fresh)).trace
reconcile_instance-Released_example =
    reconcile_instance-Released red_deleted (printing "") fresh refl protected

abbrev two_ports : Env
two_ports = printing "default_web default_db"

reconcile_pod-gone_example :
    reconcile_pod "web" "default" two_ports fresh
    ≡ done false (ports_deleted "web" "default" two_ports (pod_read "web" "default" fresh))
reconcile_pod-gone_example = reconcile_pod-gone "web" "default" two_ports fresh refl (inl refl)
