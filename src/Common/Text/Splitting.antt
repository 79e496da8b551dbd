-- ===== src/Common/Text/Splitting.antt =====
-- Splitting texts that were joined with a separator.
use Prim.Native.String
use mathlib.Core.List
use Prim.Native.String.{[], ◌∷◌}
use text.Mathlib.TextLemmas.{cons-append, nil-append}
use icn_nodus.Common.{
  nat_eq, Bool-cases, push_head, split, All, ℕ, Char, code, String, ◌≡◌, refl, ◌≢◌, inl, inr, true,
  false, List, [], ◌∷◌, ◌++◌,
}

-- The text has no character with the given code.
abbrev pub Lacks : ℕ → String → Type 0
Lacks sep [] = Unit
Lacks sep (c ∷ s) = (nat_eq (code c) sep ≡ false) × Lacks sep s

pub split-Lacks : (sep : ℕ) (s : String) → Lacks sep s → split sep s ≡ s ∷ []
unfolding split
split-Lacks sep [] h = refl
split-Lacks sep (c ∷ s) (h, k) = rw (h, split-Lacks sep s k) refl

-- A separator behind a text without one ends the first part.
pub split-append :
    (sep : ℕ) (s t : String) (c : Char)
    → Lacks sep s
    → nat_eq (code c) sep ≡ true
    → split sep (String.◌++◌ s (c ∷ t)) ≡ s ∷ split sep t
unfolding split
split-append sep [] t c h e = rw (nil-append (c ∷ t), e) refl
split-append sep (d ∷ s) t c (h, k) e =
    rw (cons-append d s (c ∷ t), h, split-append sep s t c k e) refl

pub Lacks-append :
    (sep : ℕ) (s t : String) → Lacks sep s → Lacks sep t → Lacks sep (String.◌++◌ s t)
Lacks-append sep [] t h k = rw (nil-append t) k
Lacks-append sep (c ∷ s) t (h, i) k = rw (cons-append c s t) (h, Lacks-append sep s t i k)

push_head-All :
    (sep : ℕ) (c : Char) (ps : List String)
    → nat_eq (code c) sep ≡ false
    → All (Lacks sep) ps
    → All (Lacks sep) (push_head c ps)
push_head-All sep c List.[] e h = ((e, tt), tt)
push_head-All sep c (List.◌∷◌ p ps) e (h, k) = ((e, h), k)

-- The parts of a text have no separator.
pub split-parts : (sep : ℕ) (s : String) → All (Lacks sep) (split sep s)
unfolding split
split-parts sep [] = (tt, tt)
split-parts sep (c ∷ s) = elim (Bool-cases (nat_eq (code c) sep)) [
  | inl e ↦ rw e (tt, split-parts sep s)
  | inr e ↦ rw e (push_head-All sep c (split sep s) e (split-parts sep s))
]

push_head-append :
    (c : Char) (ps qs : List String)
    → ps ≢ List.[]
    → push_head c (List.◌++◌ ps qs) ≡ List.◌++◌ (push_head c ps) qs
push_head-append c List.[] qs h = absurd (h refl)
push_head-append c (List.◌∷◌ p ps) qs h = refl

push_head-ne-nil : (c : Char) (ps : List String) → push_head c ps ≢ List.[]
push_head-ne-nil c List.[] = λ h. cc
push_head-ne-nil c (List.◌∷◌ p ps) = λ h. cc

pub split-ne-nil : (sep : ℕ) (s : String) → split sep s ≢ List.[]
unfolding split
split-ne-nil sep [] = λ h. cc
split-ne-nil sep (c ∷ s) = elim (Bool-cases (nat_eq (code c) sep)) [
  | inl e ↦ rw e (λ h. cc)
  | inr e ↦ rw e (push_head-ne-nil c (split sep s))
]

-- A separator between two texts splits them, whatever they hold.
pub split-both :
    (sep : ℕ) (s t : String) (c : Char)
    → nat_eq (code c) sep ≡ true
    → split sep (String.◌++◌ s (c ∷ t)) ≡ List.◌++◌ (split sep s) (split sep t)
unfolding split
split-both sep [] t c e = rw (nil-append (c ∷ t), e) refl
split-both sep (d ∷ s) t c e = elim (Bool-cases (nat_eq (code d) sep)) [
  | inl p ↦ rw (cons-append d s (c ∷ t), p, split-both sep s t c e) refl
  | inr p ↦
      rw (cons-append d s (c ∷ t), p, split-both sep s t c e)
        (push_head-append d (split sep s) (split sep t) (split-ne-nil sep s))
]
