-- ===== src/Effect/Inverse.antt =====
-- What a run that returns a value says of its parts, and calls that were made.
use icn_nodus.Common.{◌≡◌, refl, ap, ◌⊎◌, inr, List, [], ◌∷◌, ◌++◌}
use icn_nodus.Effect.{
  ok, Event, Env, World, Run, done, fail, crash, M, continue, ◌>>=◌, result_of, try,
}
use icn_nodus.Effect.Emits.{world_of, Extends, Any, Emits}

module _ {A B : Type 0} where
  continue-eq-done :
      (r : Run A) (f : A → M B) (env : Env) (b : B) (v : World)
      → continue r f env ≡ done b v
      → (a : A) × (u : World) × (r ≡ done a u) × (f a env u ≡ done b v)
  continue-eq-done (done a u) f env b v h = (a, u, refl, h)
  continue-eq-done (fail e u) f env b v h = cc
  continue-eq-done (crash u) f env b v h = cc

  pub >>=-eq-done :
      (m : M A) (f : A → M B) (env : Env) (w : World) (b : B) (v : World)
      → (m >>= f) env w ≡ done b v
      → (a : A) × (u : World) × (m env w ≡ done a u) × (f a env u ≡ done b v)
  unfolding ◌>>=◌
  >>=-eq-done m f env w b v h = continue-eq-done (m env w) f env b v h

pub >>=-done :
    {A B : Type 0} (m : M A) (f : A → M B) (env : Env) (w u : World) (a : A)
    → m env w ≡ done a u
    → (m >>= f) env w ≡ f a env u
unfolding ◌>>=◌
>>=-done m f env w u a h = ap (λ r. continue r f env) h

abbrev value_or : {A : Type 0} → A → Run A → A
value_or d (done a w) = a
value_or d (fail e w) = d
value_or d (crash w) = d

pub done-eq-done : {A : Type 0} {a b : A} {u v : World} → done a u ≡ done b v → (a ≡ b) × (u ≡ v)
done-eq-done {a} h = (ap (value_or a) h, ap world_of h)

pub result_of-eq-ok :
    {A : Type 0} (r : Run A) (a : A) (v : World) → result_of r ≡ done (ok a) v → r ≡ done a v
result_of-eq-ok (done a w) b v h = cc
result_of-eq-ok (fail e w) b v h = cc
result_of-eq-ok (crash w) b v h = cc

pub try-eq-ok :
    {A : Type 0} (m : M A) (env : Env) (w : World) (a : A) (v : World)
    → try m env w ≡ done (ok a) v
    → m env w ≡ done a v
unfolding try
try-eq-ok m env w a v h = result_of-eq-ok (m env w) a v h

-- The call was made in the history.
abbrev pub Issued : Event → List Event → Type 0
Issued e [] = ⊥
Issued e (x ∷ l) = (x ≡ e) ⊎ Issued e l

Issued-append : (e : Event) (added l : List Event) → Issued e l → Issued e (added ++ l)
Issued-append e [] l h = h
Issued-append e (x ∷ added) l h = inr (Issued-append e added l h)

pub Issued-Extends :
    {P : Event → Type 0} (e : Event) {old new : List Event}
    → Extends P old new
    → Issued e old
    → Issued e new
Issued-Extends e {old} (added, p, _) h = rw p (Issued-append e added old h)

-- A run that ended keeps the calls that were made before it.
pub Issued-Emits :
    {P : Event → Type 0} {A : Type 0} (m : M A) (e : Event) (env : Env) (w v : World) (a : A)
    → Emits P m
    → m env w ≡ done a v
    → Issued e w.trace
    → Issued e v.trace
Issued-Emits m e env w v a h p i = let x = h.adds env w in Issued-Extends e (rw p at x) i

-- A call that the first part of a run has made, and one that the rest has made.
module _ {A B : Type 0} (m : M A) (f : A → M B) (e : Event) (env : Env) (w v : World) (b : B) where
  pub Issued-first :
      (m >>= f) env w ≡ done b v
      → ((a : A) (u : World) → m env w ≡ done a u → Issued e u.trace)
      → ((a : A) → Emits Any (f a))
      → Issued e v.trace
  Issued-first h first rest =
      let (a, u, p, q) = >>=-eq-done m f env w b v h in
      Issued-Emits (f a) e env u v b (rest a) q (first a u p)

  pub Issued-second :
      (m >>= f) env w ≡ done b v
      → ((a : A) (u : World) → f a env u ≡ done b v → Issued e v.trace)
      → Issued e v.trace
  Issued-second h rest = let (a, u, p, q) = >>=-eq-done m f env w b v h in rest a u q
