-- ===== src/Controller/NetworkController.antt =====
-- pkg/controller/network/network_controller.go. A change of the object in memory is passed on as a new
-- value; what the server changes in it when it is written is not modelled.
use icn_nodus.Common.{if◌then◌else◌, String, Option, none, some, [], ◌∷◌, ◌++◌, ◌==◌}
use icn_nodus.Effect.{
  Error, get_object, update_object, update_status, M, ◌>>=◌, ◌>>◌, pure, raise, attempt, ask,
  of_result, log,
}
use icn_nodus.Api.{Network, network, delete_internal_error}
use icn_nodus.Ovn.Network.{get_ovn_controller, create_network_ls, delete_network_ls}
use icn_nodus.Controller.{contains_item, remove_item, write, not_supported, state_after}

abbrev pub nfn_network_finalizer : String
nfn_network_finalizer = "nfnCleanUpNetwork"

unfoldable pub create_in_ovn : Network → M (Unit {0})
create_in_ovn cr = do
  get_ovn_controller
  e ← attempt (create_network_ls cr)
  write (update_status (network (record cr { state = state_after e })))

unfoldable pub create_network_cr : Network → M (Unit {0})
create_network_cr cr =
    if cr.deleting
    then pure tt
    else if cr.cni_type == "ovn4nfv"
    then create_in_ovn cr
    else raise not_supported

-- The object after a deletion, and the error that deleteNetwork returns.
unfoldable pub after_delete : Network → Option Error → M (Network × Option Error)
after_delete cr none = pure (cr, none)
after_delete cr (some e) = do
  let cr' = record cr { state = delete_internal_error }
  refused ← attempt (write (update_status (network cr')))
  pure (cr', refused)

unfoldable pub delete_in_ovn : Network → Option Error → M (Network × Option Error)
delete_in_ovn cr (some e) = pure (cr, some e)
delete_in_ovn cr none = do e ← attempt (delete_network_ls cr); after_delete cr e

unfoldable pub delete_network_cr : Network → M (Network × Option Error)
delete_network_cr cr =
    if cr.cni_type == "ovn4nfv"
    then (attempt get_ovn_controller >>= delete_in_ovn cr)
    else pure (cr, some not_supported)

abbrev pub without_finalizer : Network → Network
without_finalizer cr = record cr { finalizers = remove_item cr.finalizers nfn_network_finalizer }

abbrev pub with_finalizer : Network → Network
with_finalizer cr = record cr { finalizers = cr.finalizers ++ nfn_network_finalizer ∷ [] }

-- The object is written, and is the new state of the instance.
unfoldable pub save : Network → M Network
save cr = write (update_object (network cr)) >> pure cr

unfoldable pub reconcile_finalizers : Network → M Network
reconcile_finalizers instance' =
    if instance'.deleting
    then (if contains_item instance'.finalizers nfn_network_finalizer
        then (delete_network_cr instance' >>= λ r. save (without_finalizer r.0))
        else pure instance')
    else if contains_item instance'.finalizers nfn_network_finalizer
    then pure instance'
    else save (with_finalizer instance')

unfoldable pub reconcile_instance : Network → M (Unit {0})
reconcile_instance instance' = reconcile_finalizers instance' >>= create_network_cr

abbrev reconcile_found : Option Network → M (Unit {0})
reconcile_found none = pure tt
reconcile_found (some instance') = reconcile_instance instance'

-- Reconcile
unfoldable pub reconcile : String → M (Unit {0})
reconcile name = do
  answer ← ask (λ env trace. env.networks trace name)
  log (get_object name)
  found ← of_result answer
  reconcile_found found
