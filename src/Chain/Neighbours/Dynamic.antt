-- ===== src/Chain/Neighbours/Dynamic.antt =====
-- internal/pkg/utils/chain.go: which networks a function of a chain has a dynamic route to, and by which
-- neighbour.
use icn_nodus.Common.{
  ltb, if◌then◌else◌, Bool-cases, ℕ, ◌+◌, String, ◌≡◌, sym, ap, ◌∙◌, inl, inr, false, List, [], ◌∷◌,
  arith,
}
use icn_nodus.Api.{Route}
use icn_nodus.Effect.{Env, World, done, M, ◌>>=◌, pure}
use icn_nodus.Chain.Neighbours.{is_adjacent, dynamic_routes}
use icn_nodus.Effect.Inverse.{>>=-eq-done, done-eq-done}
use icn_nodus.Ovn.PodAddress.{get_network_subnet}

-- The gateways of the routes to the networks from number i on: none for the two networks next to the
-- function, the right neighbour for those behind it, the left one for those in front.
abbrev pub gateways : ℕ → String → String → ℕ → List String → List String
gateways place left right i [] = []
gateways place left right i (n ∷ ns) =
    let rest = gateways place left right (i + 1) ns in
    if is_adjacent place i then rest else if ltb i place then left ∷ rest else right ∷ rest

abbrev pub gateway_list : List Route → List String
gateway_list [] = []
gateway_list (r ∷ rs) = r.gw ∷ gateway_list rs

abbrev pub destinations : List Route → List String
destinations [] = []
destinations (r ∷ rs) = r.dst ∷ destinations rs

-- The networks from number i on that are not next to the function.
abbrev pub far_networks : ℕ → ℕ → List String → List String
far_networks place i [] = []
far_networks place i (n ∷ ns) =
    let rest = far_networks place (i + 1) ns in if is_adjacent place i then rest else n ∷ rest

-- The subnets of the networks as they are read one after the other, and nothing else is done.
abbrev pub SubnetsRead : Env → World → List String → List String → World → Type 0
SubnetsRead env w [] [] v = v ≡ w
SubnetsRead env w (n ∷ ns) (dst ∷ dsts) v =
    (u : World) × (get_network_subnet n env w ≡ done dst u) × SubnetsRead env u ns dsts v
SubnetsRead env w ns dsts v = ⊥

-- The code asks which side is behind the function, the list above which side is in front of it.
side_of_adjacent :
    (place i : ℕ) (left right : String) (l : List String)
    → is_adjacent place i ≡ false
    → (if ltb place i then right else left) ∷ l ≡ (if ltb i place then left ∷ l else right ∷ l)
side_of_adjacent place i left right l h = ground arith

module _ (left right : String) (place i : ℕ) (n : String) (ns : List String) where
  -- The rest of a round for a network that is not next to the function.
  abbrev far_round : M (List Route)
  far_round = get_network_subnet n >>= λ dst.
      dynamic_routes place left right (i + 1) ns >>= λ routes.
      pure (record { dst = dst; gw = if ltb place i then right else left } ∷ routes)

  far_Leads :
      (env : Env) (w v : World) (routes : List Route)
      → ((u : World) (rest : List Route)
          → dynamic_routes place left right (i + 1) ns env u ≡ done rest v
          → SubnetsRead env u (far_networks place (i + 1) ns) (destinations rest) v
            × (gateway_list rest ≡ gateways place left right (i + 1) ns))
      → is_adjacent place i ≡ false
      → far_round env w ≡ done routes v
      → SubnetsRead env w (n ∷ far_networks place (i + 1) ns) (destinations routes) v
        × (gateway_list routes ≡ (
            if ltb i place
            then left ∷ gateways place left right (i + 1) ns
            else right ∷ gateways place left right (i + 1) ns))
  unfolding pure
  far_Leads env w v routes ih e h =
      let (dst, u, p, q) = >>=-eq-done (get_network_subnet n) _ env w routes v h in
      let (rest, u', p', q') =
        >>=-eq-done (dynamic_routes place left right (i + 1) ns) _ env u routes v q in
      let (r, x) = done-eq-done q' in
      let (reads, gws) = ih u rest (rw x at p') in
      (
        rw (← r) (u, p, reads),
        sym (ap gateway_list r)
            ∙ ap (λ l. (if ltb place i then right else left) ∷ l) gws
            ∙ side_of_adjacent place i left right (gateways place left right (i + 1) ns) e,
      )

-- The dynamic routes lead, in the order of the networks, to those that are not next to the function, to
-- the subnets that were read of them, by the left neighbour to a network in front of the function and by
-- the right one to a network behind it. Nothing else is called.
pub dynamic_routes-SubnetsRead :
    (place : ℕ) (left right : String) (i : ℕ) (ns : List String) (env : Env) (w v : World)
    (routes : List Route)
    → dynamic_routes place left right i ns env w ≡ done routes v
    → SubnetsRead env w (far_networks place i ns) (destinations routes) v
      × (gateway_list routes ≡ gateways place left right i ns)
unfolding dynamic_routes pure
dynamic_routes-SubnetsRead place left right i [] env w v routes h =
    let (r, x) = done-eq-done h in (rw (← r) (sym x), ap gateway_list (sym r))
dynamic_routes-SubnetsRead place left right i (n ∷ ns) env w v routes h =
    elim (Bool-cases (is_adjacent place i)) [
      | inl e ↦
          rw e (dynamic_routes-SubnetsRead place left right (i + 1) ns env w v routes (rw e at h))
      | inr e ↦ rw e (
          far_Leads left right place i n ns env w v routes
            (λ u rest. dynamic_routes-SubnetsRead place left right (i + 1) ns env u v rest) e
            (rw e at h))
    ]
