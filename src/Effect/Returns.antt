-- ===== src/Effect/Returns.antt =====
-- What holds of the value that a run returns, if it returns one.
use icn_nodus.Common.{if◌then◌else◌, ◌≡◌, Bool, true, false}
use icn_nodus.Effect.{
  Error, Result, ok, err, Env, World, Run, done, M, ◌>>=◌, pure, raise, panic, result_of, try,
}
use icn_nodus.Effect.Inverse.{>>=-eq-done, done-eq-done, result_of-eq-ok}

pub record Returns {A : Type 0} (Q : A → Type 0) (m : M A) : Type 0 where
  pub holds : (env : Env) (w v : World) (a : A) → m env w ≡ done a v → Q a

module _ {A : Type 0} {Q : A → Type 0} where
  pub Returns-pure : (a : A) → Q a → Returns Q (pure a)
  unfolding pure
  Returns-pure a q = record { holds = λ env w v b h. rw (← (done-eq-done h).0) q }

  pub Returns-raise : (e : Error) → Returns Q (raise e)
  unfolding raise
  Returns-raise e = record { holds = λ env w v b h. cc }

  pub Returns-panic : Returns Q panic
  unfolding panic
  Returns-panic = record { holds = λ env w v b h. cc }

  pub Returns-if :
      (b : Bool) (m n : M A) → Returns Q m → Returns Q n → Returns Q (if b then m else n)
  Returns-if true m n h k = h
  Returns-if false m n h k = k

pub Returns-any : {A : Type 0} (m : M A) → Returns (λ _. Unit {0}) m
Returns-any m = record { holds = λ env w v a h. tt }

module _ {A B : Type 0} {Q : A → Type 0} {R : B → Type 0} where
  pub Returns-bind :
      (m : M A) (f : A → M B)
      → Returns Q m
      → ((a : A) → Q a → Returns R (f a))
      → Returns R (m >>= f)
  Returns-bind m f h k = record {
    holds = λ env w v b e.
        let (a, u, p, q) = >>=-eq-done m f env w b v e in
        (k a (h.holds env w u a p)).holds env u v b q;
  }

-- A part of the run whose value does not matter.
pub Returns-rest :
    {A B : Type 0} {R : B → Type 0} (m : M A) (f : A → M B)
    → ((a : A) → Returns R (f a))
    → Returns R (m >>= f)
Returns-rest m f k = Returns-bind m f (Returns-any m) (λ a _. k a)

-- What holds of a returned value, with nothing said of an error.
abbrev pub IfOk : {A : Type 0} → (A → Type 0) → Result A → Type 0
IfOk Q (ok a) = Q a
IfOk Q (err e) = Unit {0}

IfOk-result_of :
    {A : Type 0} (Q : A → Type 0) (r : Run A) (x : Result A) (v : World)
    → ((a : A) → r ≡ done a v → Q a)
    → result_of r ≡ done x v
    → IfOk Q x
IfOk-result_of Q r (err e) v h p = tt
IfOk-result_of Q r (ok a) v h p = h a (result_of-eq-ok r a v p)

pub Returns-try : {A : Type 0} {Q : A → Type 0} (m : M A) → Returns Q m → Returns (IfOk Q) (try m)
unfolding try
Returns-try {Q} m h = record {
  holds = λ env w v x p. IfOk-result_of Q (m env w) x v (λ a e. h.holds env w v a e) p;
}
