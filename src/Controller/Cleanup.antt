-- ===== src/Controller/Cleanup.antt =====
-- How pkg/controller/network/network_controller.go lets a deleted network go.
use icn_nodus.Common.{
  if◌then◌else◌, All, String, ◌≡◌, refl, ap, ◌∙◌, ◌⊎◌, inl, inr, Bool, true, false, Option, none,
  some, List, [], ◌∷◌, ◌++◌, ◌==◌,
}
use icn_nodus.Api.{Network, network, delete_internal_error}
use icn_nodus.Effect.{
  Error, message, Event, update_object, update_status, Env, World, M, ◌>>=◌, ◌>>◌, pure, raise,
  check, error_of, attempt, effects,
}
use icn_nodus.Effect.Emits.{world_of, Extends-refl}
use icn_nodus.Effect.Inverse.{>>=-done, Issued}
use icn_nodus.Effect.Sequence.{Performs, Outcome-check}
use icn_nodus.Effect.Total.{Ended, Total, Total-pure, Total-bind, Total-attempt}
use icn_nodus.Ovn.Network.{get_ovn_controller}
use icn_nodus.Ovn.Network.Deletion.{network_calls, delete_network_ls-Performs}
use icn_nodus.Controller.{contains_item, remove_item, write, not_supported}
use icn_nodus.Controller.NetworkController.{
  nfn_network_finalizer, create_network_cr, after_delete, delete_in_ovn, delete_network_cr,
  without_finalizer, save, reconcile_finalizers, reconcile_instance,
}
use icn_nodus.Controller.Guarded.{bind_assoc, only_first}

pub remove_item-contains_item :
    (l : List String) (s : String) → contains_item (remove_item l s) s ≡ false
unfolding contains_item remove_item
remove_item-contains_item [] s = refl
remove_item-contains_item (x ∷ l) s = at (x == s) refl (remove_item-contains_item l s)
  where
    at :
        (b : Bool)
        → (x == s) ≡ b
        → contains_item (remove_item l s) s ≡ false
        → contains_item (remove_item (x ∷ l) s) s ≡ false
    at true e h = rw (e) h
    at false e h = rw (e, e) h

abbrev failed : Network → Network
failed cr = record cr { state = delete_internal_error }

-- A deletion of the network's ports or switches, or the report that it failed.
abbrev pub IsCleanup : Network → Event → Type 0
IsCleanup cr e = Issued e (network_calls cr) ⊎ (e ≡ update_status (network (failed cr)))

-- What the deletion leaves of the object: all but its state.
abbrev Keeps : Network → Network × Option Error → Type 0
Keeps cr r = (r.0.finalizers ≡ cr.finalizers) × (r.0.deleting ≡ cr.deleting)

write-Performs : (e : Event) → Performs (e ∷ []) (write e)
unfolding write effects
write-Performs e = record { outcome = λ env w. Outcome-check (env.written w.trace e) e env w }

module _ {P : Event → Type 0} where
  get_ovn_controller-Total : Total P (λ _. Unit {0}) (attempt get_ovn_controller)
  unfolding get_ovn_controller effects
  get_ovn_controller-Total = record { ended = λ env w. at env w w.controller }
    where
      at :
          (env : Env) (w : World) (b : Bool)
          → Ended P
              (λ _. Unit {0})
              w.trace
              (error_of
                ((if b then pure tt else raise (message "OVN Controller not initialized")) env w))
      at env w true = record {
        value = none;
        world = w;
        returned = refl;
        adds = Extends-refl w.trace;
        holds = tt;
      }
      at env w false = record {
        value = some _;
        world = w;
        returned = refl;
        adds = Extends-refl w.trace;
        holds = tt;
      }

module _ (cr : Network) where
  after_delete-Total : (o : Option Error) → Total (IsCleanup cr) (Keeps cr) (after_delete cr o)
  unfolding after_delete
  after_delete-Total none = Total-pure _ (refl, refl)
  after_delete-Total (some e) =
      Total-bind _ _ (Total-attempt _ _ (inr refl, tt) (write-Performs _))
        (λ o _. Total-pure _ (refl, refl))

  delete_in_ovn-Total : (o : Option Error) → Total (IsCleanup cr) (Keeps cr) (delete_in_ovn cr o)
  unfolding delete_in_ovn
  delete_in_ovn-Total (some e) = Total-pure _ (refl, refl)
  delete_in_ovn-Total none =
      Total-bind _ _
        (Total-attempt (network_calls cr) _
          (
            inl (inl refl),
            (
              inl (inr (inl refl)),
              (inl (inr (inr (inl refl))), (inl (inr (inr (inr (inl refl)))), tt)),
            ),
          )
          (delete_network_ls-Performs cr))
        (λ o _. after_delete-Total o)

  delete_network_cr-Total : Total (IsCleanup cr) (Keeps cr) (delete_network_cr cr)
  unfolding delete_network_cr
  delete_network_cr-Total = at (cr.cni_type == "ovn4nfv")
    where
      at :
          (b : Bool)
          → Total (IsCleanup cr) (Keeps cr) (
              if b
              then (attempt get_ovn_controller >>= delete_in_ovn cr)
              else pure (cr, some not_supported))
      at true = Total-bind _ _ get_ovn_controller-Total (λ o _. delete_in_ovn-Total o)
      at false = Total-pure _ (refl, refl)

reconcile_finalizers-release :
    (cr : Network)
    → cr.deleting ≡ true
    → contains_item cr.finalizers nfn_network_finalizer ≡ true
    → reconcile_finalizers cr ≡ (delete_network_cr cr >>= λ r. save (without_finalizer r.0))
unfolding reconcile_finalizers
reconcile_finalizers-release cr h k = only_first cr.deleting _ _ _ _ h k

create_network_cr-deleting : (cr : Network) → cr.deleting ≡ true → create_network_cr cr ≡ pure tt
unfolding create_network_cr
create_network_cr-deleting cr h = at _ cr.deleting h
  where
    at : (m : M (Unit {0})) (b : Bool) → b ≡ true → (if b then pure tt else m) ≡ pure tt
    at m true e = refl
    at m false e = cc

-- The write of an object that is being deleted is the last call of its reconciliation.
save-last :
    (cr : Network) (env : Env) (w : World)
    → cr.deleting ≡ true
    → (world_of ((save cr >>= create_network_cr) env w)).trace
      ≡ update_object (network cr) ∷ w.trace
unfolding save write effects
save-last cr env w h = at (env.written w.trace (update_object (network cr)))
  where
    at :
        (o : Option Error)
        → (world_of (
            ((check o >> pure cr) >>= create_network_cr) env
              (record w { trace = update_object (network cr) ∷ w.trace }))).trace
          ≡ update_object (network cr) ∷ w.trace
    at none = rw (create_network_cr-deleting cr h) refl
    at (some x) = refl

-- The history of a deleted network that was let go.
pub record Released (cr : Network) (old new : List Event) : Type 0 where
  pub last : Network
  pub unlocked : contains_item last.finalizers nfn_network_finalizer ≡ false
  pub added : List Event
  pub made : new ≡ update_object (network last) ∷ added ++ old
  pub cleanup : All (IsCleanup cr) added

-- The reconciliation of a network that is being deleted and has the finalizer calls nothing but deletions
-- of its router ports and switches and the status update that reports a failed deletion, and then, as
-- its last call, the update that removes every copy of the finalizer, even if a deletion failed.
pub reconcile_instance-Released :
    (cr : Network) (env : Env) (w : World)
    → cr.deleting ≡ true
    → contains_item cr.finalizers nfn_network_finalizer ≡ true
    → Released cr w.trace (world_of (reconcile_instance cr env w)).trace
unfolding reconcile_instance
reconcile_instance-Released cr env w h k =
    let x = (delete_network_cr-Total cr).ended env w in
    let (added, p, c) = x.adds in
    let (f, d) = x.holds in
    let cr' = without_finalizer x.value.0 in
    rw
      (
        reconcile_finalizers-release cr h k,
        bind_assoc (delete_network_cr cr) (λ r. save (without_finalizer r.0)) create_network_cr env
            w,
      )
      (record {
        last = cr';
        unlocked = remove_item-contains_item x.value.0.finalizers nfn_network_finalizer;
        added = added;
        made =
            ap (λ r. (world_of r).trace) (>>=-done _ _ env w x.world x.value x.returned)
            ∙ save-last cr' env x.world (d ∙ h)
            ∙ ap (λ l. update_object (network cr') ∷ l) p;
        cleanup = c;
      })
