-- ===== src/Controller/ChainController.antt =====
-- pkg/controller/networkchaining/networkchaining_controller.go: the reconciler of chains.
pub mod Notified
pub mod Announced
pub mod Released
use icn_nodus.Common.{
  nat_eq, if◌then◌else◌, String, Bool, true, false, not, ◌&&◌, ◌||◌, Option, none, some, List, [],
  ◌∷◌, ◌++◌, ◌==◌,
}
use icn_nodus.Api.{
  NetworkChaining, network_chaining, created, pending, creating, deleted, create_internal_error,
  delete_internal_error,
}
use icn_nodus.Effect.{
  Error, message, Result, ok, err, get_object, update_object, update_status, M, ◌>>=◌, ◌>>◌, pure,
  raise, attempt, try, ask, of_result, log,
}
use icn_nodus.Effect.Requests.{wait_for}
use icn_nodus.Chain.Networks.{check_net_for_net_pool, check_sfc_pod_label_status}
use icn_nodus.Chain.Calculation.{calculate_routes}
use icn_nodus.Notify.{
  send_route_notif, send_delete_route_notif, send_pod_network_notif, send_delete_pod_network_notif,
}
use icn_nodus.Controller.{contains_item, remove_item, write}

abbrev pub nfn_network_chain_finalizer : String
nfn_network_chain_finalizer = "nfnCleanUpNetworkChain"

abbrev same_items : List String → List String → Bool
same_items [] [] = true
same_items (x ∷ xs) (y ∷ ys) = x == y && same_items xs ys
same_items _ _ = false

-- The UpdateFunc of the watch: whether an update is reconciled, from the new and the old object
unfoldable pub on_chain_update : NetworkChaining → NetworkChaining → Bool
on_chain_update obj old =
    if obj.state == create_internal_error || obj.state == delete_internal_error
    then true
    else not (nat_eq obj.generation old.generation && same_items old.finalizers obj.finalizers)

abbrev pub with_state : NetworkChaining → String → NetworkChaining
with_state cr s = record cr { state = s }

-- r.client.Status().Update, with the object that it writes
unfoldable pub save_status : NetworkChaining → M NetworkChaining
save_status cr = write (update_status (network_chaining cr)) >>= λ _. pure cr

-- One round of the loop of checkChain
unfoldable pub pods_ready : NetworkChaining → M (Option (Unit {0}))
pods_ready cr = do ready ← check_sfc_pod_label_status cr; pure (if ready then some tt else none)

-- checkChain: the chain in the state Creating, once the pods of its functions run
unfoldable pub check_chain : NetworkChaining → M NetworkChaining
check_chain cr = do
  check_net_for_net_pool cr
  ready ← check_sfc_pod_label_status cr
  cr' ← save_status (with_state cr (if ready then creating else pending))
  if ready
      then pure cr'
      else (wait_for (pods_ready cr') >>= λ _. save_status (with_state cr' creating))

abbrev pub state_of : String → String → Option Error → String
state_of good bad none = good
state_of good bad (some e) = bad

-- Both notifications: the pods' networks only where the routes' one did not set the state
-- CreateInternalError.
unfoldable pub notify :
    M (Unit {0}) → M (Unit {0}) → String → String → NetworkChaining → M NetworkChaining
notify routes pods good bad cr = do
  refused ← attempt routes
  let cr' = with_state cr (state_of good bad refused)
  if cr'.state == create_internal_error
      then pure cr'
      else (attempt pods >>= λ e. pure (with_state cr' (state_of good bad e)))

abbrev pub chaining_type_error : Error
chaining_type_error = message "Chaining type not supported"

-- createChain
unfoldable pub create_chain : NetworkChaining → M NetworkChaining
create_chain cr =
    if cr.deleting
    then pure cr
    else if cr.state == created
    then pure cr
    else if cr.chain_type == "Routing"
    then (do
      cr' ← check_chain cr
      (pods, routes) ← calculate_routes cr' false false
      sent ←
          notify (send_route_notif routes "create") (send_pod_network_notif pods "create") created
            create_internal_error cr'
      save_status sent)
    else raise chaining_type_error

-- deleteChain: the chain as it is left in memory, with the error of the last write
unfoldable pub delete_chain : NetworkChaining → M (NetworkChaining × Option Error)
delete_chain cr =
    if cr.state == deleted
    then pure (cr, none)
    else if cr.chain_type == "Routing"
    then (do
      (pods, routes) ← calculate_routes cr true false
      sent ←
          notify (send_delete_route_notif routes "delete")
            (send_delete_pod_network_notif pods "delete") deleted delete_internal_error cr
      e ← attempt (save_status sent)
      pure (sent, e))
    else raise chaining_type_error

-- An error before the last write leaves the chain as it was.
abbrev pub kept_or : NetworkChaining → Result (NetworkChaining × Option Error) → NetworkChaining
kept_or cr (ok (cr', e)) = cr'
kept_or cr (err e) = cr

unfoldable pub without_chain_finalizer : NetworkChaining → NetworkChaining
unfolding remove_item
without_chain_finalizer cr = record cr {
  finalizers = remove_item cr.finalizers nfn_network_chain_finalizer;
}

unfoldable pub with_chain_finalizer : NetworkChaining → NetworkChaining
with_chain_finalizer cr = record cr {
  finalizers = cr.finalizers ++ nfn_network_chain_finalizer ∷ [];
}

unfoldable pub save_chain : NetworkChaining → M NetworkChaining
save_chain cr = write (update_object (network_chaining cr)) >>= λ _. pure cr

-- reconcileFinalizers: the finalizer goes even where the deletion failed
unfoldable pub reconcile_chain_finalizers : NetworkChaining → M NetworkChaining
reconcile_chain_finalizers cr =
    if cr.deleting
    then (if contains_item cr.finalizers nfn_network_chain_finalizer
        then (do
          after ← try (delete_chain cr)
          save_chain (without_chain_finalizer (kept_or cr after)))
        else pure cr)
    else (if contains_item cr.finalizers nfn_network_chain_finalizer
        then pure cr
        else save_chain (with_chain_finalizer cr))

unfoldable pub reconcile_chain_found : NetworkChaining → M NetworkChaining
reconcile_chain_found cr = do cr' ← reconcile_chain_finalizers cr; create_chain cr'

abbrev reconcile_chain_of : Option NetworkChaining → M (Unit {0})
reconcile_chain_of none = pure tt
reconcile_chain_of (some cr) = reconcile_chain_found cr >>= λ _. pure tt

-- Reconcile
unfoldable pub reconcile_chain : String → M (Unit {0})
reconcile_chain name = do
  answer ← ask (λ env trace. env.chainings trace name)
  log (get_object name)
  found ← of_result answer
  reconcile_chain_of found
