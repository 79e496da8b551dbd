-- ===== src/Effect/Emits.antt =====
-- What a run adds to the trace of calls: one rule for each way to build a run.
use icn_nodus.Common.{
  if◌then◌else◌, All, All-append, ◌≡◌, refl, sym, Bool, true, false, Option, none, some, List, [],
  ◌∷◌, ◌++◌, append_assoc,
}
use icn_nodus.Effect.{
  Error, Result, ok, err, Event, Env, World, Run, done, fail, crash, M, continue, ◌>>=◌, pure,
  raise, panic, check, error_of, attempt, result_of, try, ask, of_result, log, for_each,
}

abbrev pub world_of : {A : Type 0} → Run A → World
world_of (done a w) = w
world_of (fail e w) = w
world_of (crash w) = w

-- The new trace is the old one behind some calls that all satisfy `P`.
abbrev pub Extends : (Event → Type 0) → List Event → List Event → Type 0
Extends P old new = (added : List Event) × (new ≡ added ++ old) × All P added

-- No condition on a call.
abbrev pub Any : Event → Type 0
Any e = Unit {0}

-- Whatever the environment, the run adds only calls that satisfy `P`, however it ends.
pub record Emits (P : Event → Type 0) {A : Type 0} (m : M A) : Type 0 where
  pub adds : (env : Env) (w : World) → Extends P w.trace (world_of (m env w)).trace

module _ {P : Event → Type 0} where
  pub Extends-refl : (l : List Event) → Extends P l l
  Extends-refl l = ([], refl, tt)

  pub Extends-trans : (l m n : List Event) → Extends P l m → Extends P m n → Extends P l n
  Extends-trans l m n (a, p, ha) (b, q, hb) =
      (b ++ a, rw (q, p) (sym (append_assoc b a l)), All-append P b a hb ha)

module _ {P : Event → Type 0} {A : Type 0} where
  pub Emits-pure : (a : A) → Emits P (pure a)
  unfolding pure
  Emits-pure a = record { adds = λ env w. Extends-refl w.trace }

  pub Emits-raise : (e : Error) → Emits P (raise {A = A} e)
  unfolding raise
  Emits-raise e = record { adds = λ env w. Extends-refl w.trace }

  pub Emits-panic : Emits P (panic {A = A})
  unfolding panic
  Emits-panic = record { adds = λ env w. Extends-refl w.trace }

  pub Emits-ask : (f : Env → List Event → A) → Emits P (ask f)
  unfolding ask
  Emits-ask f = record { adds = λ env w. Extends-refl w.trace }

  pub Emits-of_result : (r : Result A) → Emits P (of_result r)
  unfolding of_result
  Emits-of_result (ok a) = record { adds = λ env w. Extends-refl w.trace }
  Emits-of_result (err e) = record { adds = λ env w. Extends-refl w.trace }

module _ {P : Event → Type 0} where
  pub Emits-check : (o : Option Error) → Emits P (check o)
  unfolding check
  Emits-check none = record { adds = λ env w. Extends-refl w.trace }
  Emits-check (some e) = record { adds = λ env w. Extends-refl w.trace }

  pub Emits-log : (e : Event) → P e → Emits P (log e)
  unfolding log
  Emits-log e p = record { adds = λ env w. (e ∷ [], refl, (p, tt)) }

module _ {P : Event → Type 0} {A B : Type 0} where
  after :
      (f : A → M B) (h : (a : A) → Emits P (f a)) (env : Env) (l : List Event) (r : Run A)
      → Extends P l (world_of r).trace
      → Extends P l (world_of (continue r f env)).trace
  after f h env l (done a w) x = Extends-trans l w.trace _ x ((h a).adds env w)
  after f h env l (fail e w) x = x
  after f h env l (crash w) x = x

  pub Emits-bind :
      (m : M A) (f : A → M B) → Emits P m → ((a : A) → Emits P (f a)) → Emits P (m >>= f)
  unfolding ◌>>=◌
  Emits-bind m f hm hf = record { adds = λ env w. after f hf env w.trace (m env w) (hm.adds env w) }

module _ {A : Type 0} where
  world_of-error_of : (r : Run A) → world_of (error_of r) ≡ world_of r
  world_of-error_of (done a w) = refl
  world_of-error_of (fail e w) = refl
  world_of-error_of (crash w) = refl

  world_of-result_of : (r : Run A) → world_of (result_of r) ≡ world_of r
  world_of-result_of (done a w) = refl
  world_of-result_of (fail e w) = refl
  world_of-result_of (crash w) = refl

module _ {P : Event → Type 0} {A : Type 0} where
  pub Emits-attempt : (m : M A) → Emits P m → Emits P (attempt m)
  unfolding attempt
  Emits-attempt m h = record { adds = λ env w. rw (world_of-error_of (m env w)) (h.adds env w) }

  pub Emits-try : (m : M A) → Emits P m → Emits P (try m)
  unfolding try
  Emits-try m h = record { adds = λ env w. rw (world_of-result_of (m env w)) (h.adds env w) }

  pub Emits-if : (b : Bool) (m n : M A) → Emits P m → Emits P n → Emits P (if b then m else n)
  Emits-if true m n hm hn = hm
  Emits-if false m n hm hn = hn

  pub Emits-for_each :
      (xs : List A) (f : A → M (Unit {0})) → ((a : A) → Emits P (f a)) → Emits P (for_each xs f)
  unfolding for_each
  Emits-for_each [] f h = Emits-pure tt
  Emits-for_each (x ∷ xs) f h =
      Emits-bind (f x) (λ _. for_each xs f) (h x) (λ _. Emits-for_each xs f h)

pub ruleset emits_rules = (
  Emits-pure, Emits-raise, Emits-panic, Emits-ask, Emits-of_result, Emits-check, Emits-log,
  Emits-bind, Emits-attempt, Emits-try, Emits-if, Emits-for_each,
)
