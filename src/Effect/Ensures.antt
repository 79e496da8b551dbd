-- ===== src/Effect/Ensures.antt =====
-- What a run adds to the trace, together with what holds of the value that it returns.
use icn_nodus.Common.{List}
use icn_nodus.Effect.{Event, Env, World, Run, done, fail, crash, M, continue, ◌>>=◌, pure}
use icn_nodus.Effect.Emits.{world_of, Extends, Emits, Extends-refl, Extends-trans}

abbrev pub Ends : {A : Type 0} → (Event → Type 0) → (A → Type 0) → List Event → Run A → Type 0
Ends P Q l (done a w) = Extends P l w.trace × Q a
Ends P Q l (fail e w) = Extends P l w.trace
Ends P Q l (crash w) = Extends P l w.trace

pub record Ensures (P : Event → Type 0) {A : Type 0} (Q : A → Type 0) (m : M A) : Type 0 where
  pub ends : (env : Env) (w : World) → Ends P Q w.trace (m env w)

module _ {P : Event → Type 0} {A B : Type 0} {Q : A → Type 0} {R : B → Type 0} where
  after :
      (f : A → M B) (h : (a : A) → Q a → Ensures P R (f a)) (env : Env) (l : List Event) (r : Run A)
      → Ends P Q l r
      → Ends P R l (continue r f env)
  after f h env l (done a w) (x, q) = prefixed l w.trace (f a env w) x ((h a q).ends env w)
    where
      prefixed : (l k : List Event) (r : Run B) → Extends P l k → Ends P R k r → Ends P R l r
      prefixed l k (done b v) x (y, r) = (Extends-trans l k v.trace x y, r)
      prefixed l k (fail e v) x y = Extends-trans l k v.trace x y
      prefixed l k (crash v) x y = Extends-trans l k v.trace x y
  after f h env l (fail e w) x = x
  after f h env l (crash w) x = x

  pub Ensures-bind :
      (m : M A) (f : A → M B)
      → Ensures P Q m
      → ((a : A) → Q a → Ensures P R (f a))
      → Ensures P R (m >>= f)
  unfolding ◌>>=◌
  Ensures-bind m f hm hf = record {
    ends = λ env w. after f hf env w.trace (m env w) (hm.ends env w);
  }

module _ {P : Event → Type 0} {A : Type 0} where
  ends_of_adds :
      (l : List Event) (r : Run A) → Extends P l (world_of r).trace → Ends P (λ _. Unit {0}) l r
  ends_of_adds l (done a w) x = (x, tt)
  ends_of_adds l (fail e w) x = x
  ends_of_adds l (crash w) x = x

  adds_of_ends :
      (Q : A → Type 0) (l : List Event) (r : Run A) → Ends P Q l r → Extends P l (world_of r).trace
  adds_of_ends Q l (done a w) x = x.0
  adds_of_ends Q l (fail e w) x = x
  adds_of_ends Q l (crash w) x = x

  pub Ensures-Emits : {m : M A} → Emits P m → Ensures P (λ _. Unit {0}) m
  Ensures-Emits {m} h = record { ends = λ env w. ends_of_adds w.trace (m env w) (h.adds env w) }

  pub Emits-Ensures : {Q : A → Type 0} {m : M A} → Ensures P Q m → Emits P m
  Emits-Ensures {Q} {m} h = record {
    adds = λ env w. adds_of_ends Q w.trace (m env w) (h.ends env w);
  }

  pub Ensures-pure : {Q : A → Type 0} (a : A) → Q a → Ensures P Q (pure a)
  unfolding pure
  Ensures-pure a q = record { ends = λ env w. (Extends-refl w.trace, q) }
