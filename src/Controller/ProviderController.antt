-- ===== src/Controller/ProviderController.antt =====
-- pkg/controller/providernetwork/providernetwork_controller.go. A change of the object in memory is
-- passed on as a new value; what the server changes in it when it is written is not modelled.
use icn_nodus.Common.{if◌then◌else◌, String, Option, none, some, [], ◌∷◌, ◌++◌, ◌==◌}
use icn_nodus.Effect.{
  Error, get_object, update_object, update_status, M, ◌>>=◌, ◌>>◌, pure, raise, attempt, ask,
  of_result, log,
}
use icn_nodus.Api.{
  ProviderNetwork, provider_network, created, create_internal_error, delete_internal_error,
}
use icn_nodus.Ovn.Network.{
  is_ls_exists, get_ovn_controller, create_provider_network, delete_provider_network,
}
use icn_nodus.Notify.{send_notif}
use icn_nodus.Controller.{contains_item, remove_item, write, not_supported}

abbrev pub nfn_provider_network_finalizer : String
nfn_provider_network_finalizer = "nfnCleanUpProviderNetwork"

abbrev state_of_notif : Option Error → String
state_of_notif none = created
state_of_notif (some e) = create_internal_error

-- The switch is there: the agents are told, and the state tells whether they were.
unfoldable pub announce : ProviderNetwork → M (Unit {0})
announce cr = do
  e ← attempt (send_notif cr "create" "")
  write (update_status (provider_network (record cr { state = state_of_notif e })))

-- Behind CreateProviderNetwork; where it failed the new state is not written.
unfoldable pub after_create : ProviderNetwork → Option Error → M (Unit {0})
after_create cr none = announce cr
after_create cr (some e) = if is_ls_exists e then announce cr else pure tt

unfoldable pub create_in_ovn : ProviderNetwork → M (Unit {0})
create_in_ovn cr = do
  get_ovn_controller
  e ← attempt (create_provider_network cr.name cr.ipv4_subnets cr.ipv6_subnets)
  after_create cr e

unfoldable pub create_network_cr : ProviderNetwork → M (Unit {0})
create_network_cr cr =
    if cr.deleting
    then pure tt
    else if cr.cni_type == "ovn4nfv"
    then create_in_ovn cr
    else raise not_supported

-- The object after a deletion, and the error that deleteNetwork returns.
unfoldable pub after_delete : ProviderNetwork → Option Error → M (ProviderNetwork × Option Error)
after_delete cr none = pure (cr, none)
after_delete cr (some e) = do
  let cr' = record cr { state = delete_internal_error }
  refused ← attempt (write (update_status (provider_network cr')))
  pure (cr', refused)

unfoldable pub delete_in_ovn : ProviderNetwork → Option Error → M (ProviderNetwork × Option Error)
delete_in_ovn cr (some e) = pure (cr, some e)
delete_in_ovn cr none = do
  _ ← attempt (send_notif cr "delete" "")
  e ← attempt (delete_provider_network cr.name)
  after_delete cr e

unfoldable pub delete_network_cr : ProviderNetwork → M (ProviderNetwork × Option Error)
delete_network_cr cr =
    if cr.cni_type == "ovn4nfv"
    then (attempt get_ovn_controller >>= delete_in_ovn cr)
    else pure (cr, some not_supported)

abbrev pub without_finalizer : ProviderNetwork → ProviderNetwork
without_finalizer cr = record cr {
  finalizers = remove_item cr.finalizers nfn_provider_network_finalizer;
}

abbrev pub with_finalizer : ProviderNetwork → ProviderNetwork
with_finalizer cr = record cr { finalizers = cr.finalizers ++ nfn_provider_network_finalizer ∷ [] }

-- The object is written, and is the new state of the instance.
unfoldable pub save : ProviderNetwork → M ProviderNetwork
save cr = write (update_object (provider_network cr)) >> pure cr

unfoldable pub reconcile_finalizers : ProviderNetwork → M ProviderNetwork
reconcile_finalizers instance' =
    if instance'.deleting
    then (if contains_item instance'.finalizers nfn_provider_network_finalizer
        then (delete_network_cr instance' >>= λ r. save (without_finalizer r.0))
        else pure instance')
    else if contains_item instance'.finalizers nfn_provider_network_finalizer
    then pure instance'
    else save (with_finalizer instance')

unfoldable pub reconcile_instance : ProviderNetwork → M (Unit {0})
reconcile_instance instance' = reconcile_finalizers instance' >>= create_network_cr

abbrev reconcile_found : Option ProviderNetwork → M (Unit {0})
reconcile_found none = pure tt
reconcile_found (some instance') = reconcile_instance instance'

-- Reconcile
unfoldable pub reconcile : String → M (Unit {0})
reconcile name = do
  answer ← ask (λ env trace. env.provider_networks trace name)
  log (get_object name)
  found ← of_result answer
  reconcile_found found
