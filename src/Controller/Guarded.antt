-- ===== src/Controller/Guarded.antt =====
-- The order of finalizers and commands in pkg/controller/network/network_controller.go.
use icn_nodus.Common.{
  if◌then◌else◌, ◌≡◌, refl, Bool, true, false, Option, none, some, List, [], ◌∷◌, ◌++◌,
}
use icn_nodus.Api.{Network, network}
use icn_nodus.Effect.{
  Error, Event, update_object, Env, World, Run, done, fail, crash, M, continue, ◌>>=◌, ◌>>◌, pure,
  check, effects,
}
use icn_nodus.Effect.Emits.{world_of, Any, Emits, Emits-pure, Emits-bind, emits_rules}
use icn_nodus.Ovn.Network.Commands.{create_network_ls-Emits, get_ovn_controller-Emits}
use icn_nodus.Controller.{contains_item, write}
use icn_nodus.Controller.NetworkController.{
  nfn_network_finalizer, create_in_ovn, create_network_cr, with_finalizer, save,
  reconcile_finalizers, reconcile_instance,
}

-- The oldest call that a run has added.
abbrev pub StartsWith : Event → List Event → List Event → Type 0
StartsWith e old new = (added : List Event) × (new ≡ added ++ e ∷ old)

write-Any : (e : Event) → Emits Any (write e)
unfolding write
write-Any e = search emits_rules

-- A run that writes and goes on has the write as its first call.
write-StartsWith :
    {A : Type 0} (e : Event) (k : M A) (env : Env) (w : World)
    → Emits Any k
    → StartsWith e w.trace (world_of ((write e >> k) env w)).trace
unfolding write effects
write-StartsWith e k env w h = at (env.written w.trace e)
  where
    at :
        (o : Option Error)
        → StartsWith e w.trace
            (world_of ((check o >> k) env (record w { trace = e ∷ w.trace }))).trace
    at none = let (added, p, _) = h.adds env (record w { trace = e ∷ w.trace }) in (added, p)
    at (some x) = ([], refl)

pub bind_assoc :
    {A B C : Type 0} (m : M A) (f : A → M B) (g : B → M C) (env : Env) (w : World)
    → ((m >>= f) >>= g) env w ≡ (m >>= λ a. f a >>= g) env w
unfolding ◌>>=◌
bind_assoc m f g env w = at (m env w)
  where
    at : (r : Run _) → continue (continue r f env) g env ≡ continue r (λ a. f a >>= g) env
    at (done a u) = refl
    at (fail e u) = refl
    at (crash u) = refl

create_network_cr-Any : (cr : Network) → Emits Any (create_network_cr cr)
unfolding create_network_cr create_in_ovn
create_network_cr-Any cr =
    search
      (
        emits_rules,
        write-Any,
        get_ovn_controller-Emits,
        create_network_ls-Emits {P = Any} (λ args. tt),
      )
      depth 10

neither :
    {A : Type 0} (a b : Bool) (x y z : A)
    → a ≡ false
    → b ≡ false
    → (if a then (if b then x else y) else if b then y else z) ≡ z
neither true b x y z h k = cc
neither false true x y z h k = cc
neither false false x y z h k = refl

pub only_first :
    {A : Type 0} (a b : Bool) (x y z : A)
    → a ≡ true
    → b ≡ true
    → (if a then (if b then x else y) else if b then y else z) ≡ x
only_first true true x y z h k = refl
only_first true false x y z h k = cc
only_first false b x y z h k = cc

reconcile_finalizers-add :
    (cr : Network)
    → cr.deleting ≡ false
    → contains_item cr.finalizers nfn_network_finalizer ≡ false
    → reconcile_finalizers cr ≡ save (with_finalizer cr)
unfolding reconcile_finalizers
reconcile_finalizers-add cr h k = neither cr.deleting _ _ _ _ h k

save-StartsWith :
    (cr : Network) (env : Env) (w : World)
    → StartsWith
        (update_object (network cr))
        w.trace
        (world_of ((save cr >>= create_network_cr) env w)).trace
unfolding save
save-StartsWith cr env w =
    rw (bind_assoc (write (update_object (network cr))) (λ _. pure cr) create_network_cr env w) (
      write-StartsWith _ _ env w
        (Emits-bind (pure cr) create_network_cr (Emits-pure cr) create_network_cr-Any))

-- A network that is not being deleted is protected before anything is created for it: where it lacks the
-- finalizer, the first call of its reconciliation is the update that adds it, however the reconciliation
-- ends.
pub reconcile_instance-StartsWith :
    (cr : Network) (env : Env) (w : World)
    → cr.deleting ≡ false
    → contains_item cr.finalizers nfn_network_finalizer ≡ false
    → StartsWith
        (update_object (network (with_finalizer cr)))
        w.trace
        (world_of (reconcile_instance cr env w)).trace
unfolding reconcile_instance
reconcile_instance-StartsWith cr env w h k =
    rw (reconcile_finalizers-add cr h k) (save-StartsWith (with_finalizer cr) env w)
