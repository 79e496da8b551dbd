-- ===== src/Chain/Matching/Shared.antt =====
-- internal/pkg/utils/chain.go: what compareEachLabel compares, and the chain that a pod is taken into.
use icn_nodus.Common.{
  if◌then◌else◌, Bool-cases, any, String, ◌≡◌, refl, ap, ◌∙◌, ◌⊎◌, inl, inr, Bool, true, false,
  ◌||◌, Option, none, some, List, [], ◌∷◌,
}
use icn_nodus.Api.{RoutingNetwork, NetworkChaining, Labels}
use icn_nodus.Chain.Matching.{
  same_entry, compare_with, compare_from, compare_each_label, side_matches, matching_chain,
  chain_for_pod,
}

flagged :
    (hit equal rest other : Bool)
    → rest ≡ (equal || other)
    → (if hit then true else if equal then equal else rest) ≡ (equal || (hit || other))
flagged true true rest other h = refl
flagged true false rest other h = refl
flagged false true rest other h = refl
flagged false false rest other h = h

or_regroup : (a b c : Bool) → ((a || b) || c) ≡ (a || (b || c))
or_regroup true b c = refl
or_regroup false b c = refl

compare_with-any :
    (equal : Bool) (a : String × String) (b : Labels)
    → compare_with equal a b ≡ (equal || any (same_entry a) b)
unfolding compare_with
compare_with-any true a [] = refl
compare_with-any false a [] = refl
compare_with-any equal a (b ∷ bs) =
    flagged (same_entry a b) equal (compare_with equal a bs) (any (same_entry a) bs)
      (compare_with-any equal a bs)

compare_from-any :
    (equal : Bool) (a b : Labels)
    → compare_from equal a b ≡ (equal || any (λ e. any (same_entry e) b) a)
unfolding compare_from
compare_from-any true [] b = refl
compare_from-any false [] b = refl
compare_from-any equal (e ∷ a) b =
    compare_from-any (compare_with equal e b) a b
    ∙ ap (λ c. c || any (λ x. any (same_entry x) b) a) (compare_with-any equal e b)
    ∙ or_regroup equal (any (same_entry e) b) (any (λ x. any (same_entry x) b) a)

-- compareEachLabel holds exactly where the two sets of labels share an entry, a key with its value.
pub compare_each_label-any :
    (a b : Labels) → compare_each_label a b ≡ any (λ e. any (same_entry e) b) a
unfolding compare_each_label
compare_each_label-any a b = compare_from-any false a b

module _ (pod ns : Labels) where
  -- One of the networks on the left, or on the right, of the chain selects the pod.
  abbrev pub on_left : NetworkChaining → Bool
  on_left nc = side_matches pod ns nc.left_network

  abbrev pub on_right : NetworkChaining → Bool
  on_right nc = side_matches pod ns nc.right_network

  -- What the search says of the chains.
  abbrev pub Found :
      (NetworkChaining → Bool) → List NetworkChaining → Option NetworkChaining → Type 0
  Found p ncs none = any p ncs ≡ false
  Found p ncs (some nc) = p nc ≡ true

  Found-cons :
      (side : NetworkChaining → List RoutingNetwork) (nc : NetworkChaining)
      (ncs : List NetworkChaining) (o : Option NetworkChaining)
      → side_matches pod ns (side nc) ≡ false
      → Found (λ nc. side_matches pod ns (side nc)) ncs o
      → Found (λ nc. side_matches pod ns (side nc)) (nc ∷ ncs) o
  Found-cons side nc ncs none e h = rw e h
  Found-cons side nc ncs (some found) e h = h

  matching_chain-Found :
      (side : NetworkChaining → List RoutingNetwork) (ncs : List NetworkChaining)
      → Found (λ nc. side_matches pod ns (side nc)) ncs (matching_chain side pod ns ncs)
  unfolding matching_chain
  matching_chain-Found side [] = refl
  matching_chain-Found side (nc ∷ ncs) = elim (Bool-cases (side_matches pod ns (side nc))) [
    | inl e ↦ rw e e
    | inr e ↦
        rw e (
          Found-cons side nc ncs (matching_chain side pod ns ncs) e (matching_chain-Found side ncs))
  ]

  -- The left sides of all chains come before the right ones.
  abbrev pub Chosen : List NetworkChaining → Option NetworkChaining → Type 0
  Chosen ncs none = (any on_left ncs ≡ false) × (any on_right ncs ≡ false)
  Chosen ncs (some nc) = (on_left nc ≡ true) ⊎ ((any on_left ncs ≡ false) × (on_right nc ≡ true))

  Found-Chosen :
      (ncs : List NetworkChaining) (l r : Option NetworkChaining)
      → Found on_left ncs l
      → Found on_right ncs r
      → Chosen ncs (elim l [ some nc ↦ some nc | none ↦ r ])
  Found-Chosen ncs (some nc) r h k = inl h
  Found-Chosen ncs none none h k = (h, k)
  Found-Chosen ncs none (some nc) h k = inr (h, k)

  -- The chain that ConfigureforSFC takes a pod into selects the pod on its left, or no chain does and it
  -- selects the pod on its right; where it finds no chain, none selects the pod on either side.
  pub chain_for_pod-Chosen : (ncs : List NetworkChaining) → Chosen ncs (chain_for_pod pod ns ncs)
  unfolding chain_for_pod
  chain_for_pod-Chosen ncs =
      Found-Chosen ncs (matching_chain (λ nc. nc.left_network) pod ns ncs)
        (matching_chain (λ nc. nc.right_network) pod ns ncs)
        (matching_chain-Found (λ nc. nc.left_network) ncs)
        (matching_chain-Found (λ nc. nc.right_network) ncs)
