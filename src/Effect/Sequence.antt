-- ===== src/Effect/Sequence.antt =====
-- Runs that make a fixed sequence of calls and stop at the first error.
use icn_nodus.Common.{
  ◌≡◌, refl, sym, ap, ◌∙◌, Option, none, some, List, [], ◌∷◌, ◌++◌, append_assoc,
}
use icn_nodus.Effect.Inverse.{done-eq-done}
use icn_nodus.Effect.{
  Error, Event, Env, World, Run, done, fail, crash, M, continue, ◌>>=◌, pure, check, error_of,
  attempt,
}

-- The calls in their order put in front of a history, which has the newest first.
abbrev pub issue : List Event → List Event → List Event
issue [] history = history
issue (e ∷ events) history = issue events (e ∷ history)

issue-append : (a b history : List Event) → issue (a ++ b) history ≡ issue b (issue a history)
issue-append [] b history = refl
issue-append (e ∷ a) b history = issue-append a b (e ∷ history)

-- A history that ends with a failed call of the sequence: the calls before it were made, and none behind
-- it.
pub record Stopped (calls old new : List Event) : Type 0 where
  pub before : List Event
  pub last : Event
  pub rest : List Event
  pub split_at : calls ≡ before ++ last ∷ rest
  pub made : new ≡ issue (before ++ last ∷ []) old

-- A run returns after all of the calls, or with an error after the one that failed.
abbrev pub Outcome : {A : Type 0} → List Event → List Event → Run A → Type 0
Outcome calls old (done a v) = v.trace ≡ issue calls old
Outcome calls old (fail e v) = Stopped calls old v.trace
Outcome calls old (crash v) = ⊥

pub record Performs (calls : List Event) {A : Type 0} (m : M A) : Type 0 where
  pub outcome : (env : Env) (w : World) → Outcome calls w.trace (m env w)

Stopped-first :
    (a b : List Event) {old new : List Event} → Stopped a old new → Stopped (a ++ b) old new
Stopped-first a b s = record {
  before = s.before;
  last = s.last;
  rest = s.rest ++ b;
  split_at = ap (λ l. l ++ b) s.split_at ∙ append_assoc s.before (s.last ∷ s.rest) b;
  made = s.made;
}

Stopped-second :
    (a b : List Event) {old mid new : List Event}
    → mid ≡ issue a old
    → Stopped b mid new
    → Stopped (a ++ b) old new
Stopped-second a b {old} e s = record {
  before = a ++ s.before;
  last = s.last;
  rest = s.rest;
  split_at = ap (λ l. a ++ l) s.split_at ∙ sym (append_assoc a s.before (s.last ∷ s.rest));
  made =
      s.made
      ∙ ap (issue (s.before ++ s.last ∷ [])) e
      ∙ sym (issue-append a (s.before ++ s.last ∷ []) old)
      ∙ ap (λ l. issue l old) (sym (append_assoc a s.before (s.last ∷ [])));
}

module _ {B : Type 0} (a b : List Event) where
  pub second :
      (old : List Event) (u : World) (r : Run B)
      → u.trace ≡ issue a old
      → Outcome b u.trace r
      → Outcome (a ++ b) old r
  second old u (done x v) e o = o ∙ ap (issue b) e ∙ sym (issue-append a b old)
  second old u (fail x v) e o = Stopped-second a b e o
  second old u (crash v) e o = elim o [ ]

module _ {A B : Type 0} (a b : List Event) (k : M B) (h : Performs b k) where
  after :
      (env : Env) (old : List Event) (r : Run A)
      → Outcome a old r
      → Outcome (a ++ b) old (continue r (λ _. k) env)
  after env old (done x u) o = second a b old u (k env u) o (h.outcome env u)
  after env old (fail x u) o = Stopped-first a b o
  after env old (crash u) o = elim o [ ]

  -- One run behind another makes the calls of both.
  pub Performs-bind : (m : M A) → Performs a m → Performs (a ++ b) (m >>= λ _. k)
  unfolding ◌>>=◌
  Performs-bind m g = record { outcome = λ env w. after env w.trace (m env w) (g.outcome env w) }

pub Performs-pure : {A : Type 0} (a : A) → Performs [] (pure a)
unfolding pure
Performs-pure a = record { outcome = λ env w. refl }

-- A call with its reply: an error of the reply ends the run behind it.
pub Outcome-check :
    (o : Option Error) (e : Event) (env : Env) (w : World)
    → Outcome (e ∷ []) w.trace (check o env (record w { trace = e ∷ w.trace }))
unfolding check
Outcome-check none e env w = refl
Outcome-check (some x) e env w = record {
  before = [];
  last = e;
  rest = [];
  split_at = refl;
  made = refl;
}

-- The history after a run that performs calls and returns.
pub issued_by :
    {A : Type 0} (calls : List Event) (m : M A) (env : Env) (w v : World) (a : A)
    → Performs calls m
    → m env w ≡ done a v
    → v.trace ≡ issue calls w.trace
issued_by {A} calls m env w v a h e = ended (m env w) (h.outcome env w) e
  where
    ended : (r : Run A) → Outcome calls w.trace r → r ≡ done a v → v.trace ≡ issue calls w.trace
    ended r o e = rw e at o

-- Where the error of a run is kept as a value: all of the calls were made, or it stopped at a failed one.
abbrev pub Reached : List Event → List Event → Option Error → World → Type 0
Reached calls old none v = v.trace ≡ issue calls old
Reached calls old (some e) v = Stopped calls old v.trace

pub attempt-Reached :
    {A : Type 0} (calls : List Event) (m : M A) (env : Env) (w v : World) (o : Option Error)
    → Outcome calls w.trace (m env w)
    → attempt m env w ≡ done o v
    → Reached calls w.trace o v
unfolding attempt
attempt-Reached {A} calls m env w v o h e = of_run (m env w) h e
  where
    of_run :
        (r : Run A) → Outcome calls w.trace r → error_of r ≡ done o v → Reached calls w.trace o v
    of_run (done a u) k p = let (i, j) = done-eq-done p in rw (← i, ← j) k
    of_run (fail x u) k p = let (i, j) = done-eq-done p in rw (← i, ← j) k
    of_run (crash u) k p = elim k [ ]
