-- ===== src/Effect/Total.antt =====
-- Runs that always return a value, with what they add to the trace and what holds of the value.
use icn_nodus.Common.{All, ◌≡◌, refl, ap, ◌∙◌, none, some, List, [], ◌∷◌, ◌++◌}
use icn_nodus.Effect.{
  Event, Env, World, Run, done, fail, crash, M, continue, ◌>>=◌, pure, error_of, attempt,
}
use icn_nodus.Effect.Emits.{Extends, Extends-refl, Extends-trans}
use icn_nodus.Effect.Sequence.{issue, Stopped, Outcome, Performs}

-- How a total run ends.
pub record Ended (P : Event → Type 0) {A : Type 0} (Q : A → Type 0) (old : List Event) (r : Run A)
    : Type 0 where
  pub value : A
  pub world : World
  pub returned : r ≡ done value world
  pub adds : Extends P old world.trace
  pub holds : Q value

pub record Total (P : Event → Type 0) {A : Type 0} (Q : A → Type 0) (m : M A) : Type 0 where
  pub ended : (env : Env) (w : World) → Ended P Q w.trace (m env w)

module _ {P : Event → Type 0} {A : Type 0} {Q : A → Type 0} where
  pub Total-pure : (a : A) → Q a → Total P Q (pure a)
  unfolding pure
  Total-pure a q = record {
    ended = λ env w. record {
      value = a;
      world = w;
      returned = refl;
      adds = Extends-refl w.trace;
      holds = q;
    };
  }

module _ {P : Event → Type 0} {A B : Type 0} {Q : A → Type 0} {R : B → Type 0} where
  pub Total-bind :
      (m : M A) (f : A → M B)
      → Total P Q m
      → ((a : A) → Q a → Total P R (f a))
      → Total P R (m >>= f)
  unfolding ◌>>=◌
  Total-bind m f hm hf = record {
    ended = λ env w.
        let x = hm.ended env w in
        let y = (hf x.value x.holds).ended env x.world in
        record {
          value = y.value;
          world = y.world;
          returned = ap (λ r. continue r f env) x.returned ∙ y.returned;
          adds = Extends-trans w.trace x.world.trace y.world.trace x.adds y.adds;
          holds = y.holds;
        };
  }

All-before :
    (P : Event → Type 0) (a : List Event) (e : Event) (b : List Event)
    → All P (a ++ e ∷ b)
    → All P (a ++ e ∷ [])
All-before P [] e b (p, h) = (p, tt)
All-before P (x ∷ a) e b (p, h) = (p, All-before P a e b h)

module _ {P : Event → Type 0} where
  Extends-issue : (calls old : List Event) → All P calls → Extends P old (issue calls old)
  Extends-issue [] old h = Extends-refl old
  Extends-issue (e ∷ calls) old (p, h) =
      Extends-trans old (e ∷ old) (issue calls (e ∷ old)) (e ∷ [], refl, (p, tt))
        (Extends-issue calls (e ∷ old) h)

  Extends-Stopped :
      {calls old new : List Event} → All P calls → Stopped calls old new → Extends P old new
  Extends-Stopped {calls} {old} h s = rw (s.made) (
      Extends-issue (s.before ++ s.last ∷ []) old
        (All-before P s.before s.last s.rest (rw (s.split_at) at h)))

  attempt_outcome :
      {A : Type 0} (calls old : List Event) (r : Run A)
      → All P calls
      → Outcome calls old r
      → Ended P (λ _. Unit {0}) old (error_of r)
  attempt_outcome calls old (done a u) h o = record {
    value = none;
    world = u;
    returned = refl;
    adds = rw (o) (Extends-issue calls old h);
    holds = tt;
  }
  attempt_outcome calls old (fail e u) h o = record {
    value = some e;
    world = u;
    returned = refl;
    adds = Extends-Stopped h o;
    holds = tt;
  }
  attempt_outcome calls old (crash u) h o = elim o [ ]

  -- The error of a run that performs calls, each of which satisfies `P`.
  pub Total-attempt :
      {A : Type 0} (calls : List Event) (m : M A)
      → All P calls
      → Performs calls m
      → Total P (λ _. Unit {0}) (attempt m)
  unfolding attempt
  Total-attempt calls m h k = record {
    ended = λ env w. attempt_outcome calls w.trace (m env w) h (k.outcome env w);
  }
