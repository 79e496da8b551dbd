-- ===== src/Controller/Writing.antt =====
-- pkg/controller: a call that writes an object, its status or a notification, as one call of the history.
use icn_nodus.Common.{◌≡◌, refl, sym, Option, none, some, ◌∷◌}
use icn_nodus.Effect.{
  Error, Event, Env, World, done, continue, ◌>>=◌, pure, check, error_of, attempt, effects,
}
use icn_nodus.Effect.Inverse.{done-eq-done}
use icn_nodus.Controller.{write}

abbrev pub logged : Event → World → World
logged e w = record w { trace = e ∷ w.trace }

replied :
    (e : Event) (o : Option Error) (env : Env) (w : World)
    → error_of (check o env (logged e w)) ≡ done o (logged e w)
unfolding check
replied e none env w = refl
replied e (some x) env w = refl

pub attempt-write :
    (e : Event) (env : Env) (w : World)
    → attempt (write e) env w ≡ done (env.written w.trace e) (logged e w)
unfolding write effects
attempt-write e env w = replied e (env.written w.trace e) env w

saved :
    {A : Type 0} (e : Event) (x a : A) (o : Option Error) (env : Env) (w v : World)
    → continue (check o env (logged e w)) (λ _ env u. done x u) env ≡ done a v
    → (a ≡ x) × (v ≡ logged e w)
unfolding check
saved e x a none env w v h = let (p, q) = done-eq-done h in (sym p, sym q)
saved e x a (some y) env w v h = cc

-- A write that was accepted is the last call.
pub write-eq-done :
    {A : Type 0} (e : Event) (x a : A) (env : Env) (w v : World)
    → (write e >>= λ _. pure x) env w ≡ done a v
    → (a ≡ x) × (v ≡ logged e w)
unfolding write effects
write-eq-done e x a env w v h = saved e x a (env.written w.trace e) env w v h

saved_error :
    {A : Type 0} (e : Event) (x : A) (o : Option Error) (env : Env) (w : World)
    → error_of (continue (check o env (logged e w)) (λ _ env u. done x u) env) ≡ done o (logged e w)
unfolding check
saved_error e x none env w = refl
saved_error e x (some y) env w = refl

pub attempt-write-then :
    {A : Type 0} (e : Event) (x : A) (env : Env) (w : World)
    → attempt (write e >>= λ _. pure x) env w ≡ done (env.written w.trace e) (logged e w)
unfolding write effects
attempt-write-then e x env w = saved_error e x (env.written w.trace e) env w
