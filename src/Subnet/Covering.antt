-- ===== src/Subnet/Covering.antt =====
-- The addresses of the virtual networks of internal/pkg/network/subnet.go.
use mathlib.Core.Option
use icn_nodus.Common.{
  ℕ, zero, suc, ◌+◌, ◌-◌, ◌%◌, ◌^◌, ◌≤◌, ◌<◌, ◌≡◌, refl, ap, ◌∙◌, ◌≢◌, some, List, [], ◌∷◌, arith,
}
use icn_nodus.Api.{IpSubnet}
use icn_nodus.Subnet.{
  Ip4, address_space, choose_subnet_len, subnet_size, virtual_network, cut, virtual_networks,
}
use icn_nodus.Effect.{ok}

-- The size of a number of subnets that stand side by side.
abbrev pub span : ℕ → ℕ → ℕ
span size zero = 0
span size (suc n) = size + span size n

-- The virtual networks that stand side by side from an address on.
abbrev pub side_by_side : Ip4 → ℕ → ℕ → ℕ → ℕ → List IpSubnet
side_by_side lib len size zero ip = []
side_by_side lib len size (suc n) ip =
    virtual_network lib len ip ∷ side_by_side lib len size n (ip + size)

span-add : (size m n : ℕ) → span size (m + n) ≡ span size m + span size n
span-add size zero n = let e : 0 + n ≡ n = omega arith in rw e (omega arith)
span-add size (suc m) n =
    let e : suc m + n ≡ suc (m + n) = omega arith in rw e (omega (arith, span-add size m n))

span-pow : (k d : ℕ) → span (2 ^ k) (2 ^ d) ≡ 2 ^ (k + d)
span-pow k zero = let e : k + 0 ≡ k = omega arith in rw e (omega arith)
span-pow k (suc d) =
    let e : 2 ^ suc d ≡ 2 ^ d + 2 ^ d = omega arith in
    let f : k + suc d ≡ suc (k + d) = omega arith in
    rw (e, f, span-add (2 ^ k) (2 ^ d) (2 ^ d), span-pow k d) (omega arith)

pow_positive : (k : ℕ) → 0 < 2 ^ k
pow_positive zero = omega arith
pow_positive (suc k) = omega (arith, pow_positive k)

pow_grows : (k j : ℕ) → 2 ^ k ≤ 2 ^ (k + j)
pow_grows k zero = let e : k + 0 ≡ k = omega arith in rw e (omega arith)
pow_grows k (suc j) =
    let e : k + suc j ≡ suc (k + j) = omega arith in rw e (omega (arith, pow_grows k j))

span_grows : (size n : ℕ) → 0 < size → n ≤ span size n
span_grows size zero h = omega arith
span_grows size (suc n) h = omega (arith, span_grows size n h)

module _ (lib : Ip4) (len size : ℕ) (positive : 0 < size) where
  cut-last :
      (stop fuel current : ℕ) → current ≡ stop → cut lib len size stop (suc fuel) current ≡ some []
  unfolding cut
  cut-last stop fuel current e = ground arith

  cut-next :
      (stop fuel current : ℕ)
      → current ≢ stop
      → cut lib len size stop (suc fuel) current
        ≡ Option.map
            (λ vn. virtual_network lib len current ∷ vn)
            (cut lib len size stop fuel ((current + size) % address_space))
  unfolding cut
  cut-next stop fuel current e = ground arith

  -- The rounds that are left make one network each, if they fit in front of the end of the addresses.
  cut-side_by_side :
      (n ip fuel : ℕ)
      → n < fuel
      → span size n < address_space
      → ip + span size n ≤ address_space
      → cut lib len size ((ip + span size n) % address_space) fuel (ip % address_space)
        ≡ some (side_by_side lib len size n ip)
  cut-side_by_side zero ip zero h p fits = absurd (omega arith)
  cut-side_by_side zero ip (suc fuel) h p fits =
      let e : ip + 0 ≡ ip = omega arith in cut-last _ fuel _ (rw e refl)
  cut-side_by_side (suc n) ip zero h p fits = absurd (omega arith)
  cut-side_by_side (suc n) ip (suc fuel) h p fits =
      let low : ip % address_space ≡ ip = omega arith in
      let step : ip + (size + span size n) ≡ ip + size + span size n = omega arith in
      let differ : ip ≢ (ip + size + span size n) % address_space = omega arith in
      rw (low, step)
        (cut-next _ fuel ip differ
          ∙ ap (Option.map (λ vn. virtual_network lib len ip ∷ vn))
              (cut-side_by_side n (ip + size) fuel (omega arith) (omega arith) (omega arith)))

-- The documented value of flannel's Next: the network of the same length behind the given one.
abbrev pub IsNext : Ip4 → Type 0
IsNext lib =
    (ip prefix_len : ℕ)
    → prefix_len ≤ 32
    → lib.next_network ip prefix_len ≡ (ip + 2 ^ (32 - prefix_len)) % address_space

choose_subnet_len-bounds :
    (prefix_len given len : ℕ)
    → choose_subnet_len prefix_len given ≡ ok len
    → (prefix_len + 2 ≤ len) × (len ≤ 30)
unfolding choose_subnet_len
choose_subnet_len-bounds prefix_len given len h = ground arith

span-whole :
    (prefix_len len : ℕ)
    → prefix_len ≤ len
    → len ≤ 32
    → span (2 ^ (32 - len)) (2 ^ (len - prefix_len)) ≡ 2 ^ (32 - prefix_len)
span-whole prefix_len len k l =
    let e : 32 - len + (len - prefix_len) ≡ 32 - prefix_len = omega arith in
    span-pow (32 - len) (len - prefix_len) ∙ ap (λ x. 2 ^ x) e

module _ (lib : Ip4) (next : IsNext lib) (network_ip prefix_len len : ℕ) where
  size_fits : 0 < prefix_len → prefix_len ≤ 32 → 2 ^ (32 - prefix_len) ≤ 2147483648
  size_fits h k =
      let e : 32 - prefix_len + (prefix_len - 1) ≡ 31 = omega arith in
      rw e at (pow_grows (32 - prefix_len) (prefix_len - 1))

  virtual_networks-side_by_side :
      0 < prefix_len
      → prefix_len ≤ len
      → len ≤ 32
      → network_ip + 2 ^ (32 - prefix_len) ≤ address_space
      → virtual_networks lib network_ip prefix_len len
        ≡ some (side_by_side lib len (2 ^ (32 - len)) (2 ^ (len - prefix_len)) network_ip)
  unfolding virtual_networks subnet_size
  virtual_networks-side_by_side h k l fits =
      let size = 2 ^ (32 - len) in
      let n = 2 ^ (len - prefix_len) in
      let whole = span-whole prefix_len len k l in
      let start : network_ip % address_space ≡ network_ip =
        omega (arith, fits, pow_positive (32 - prefix_len)) in
      let small = size_fits h (omega arith) in
      let c =
        cut-side_by_side lib len size (pow_positive (32 - len)) n network_ip address_space
          (omega (arith, span_grows size n (pow_positive (32 - len)), whole, small))
          (omega (arith, whole, small)) (omega (arith, whole, fits)) in
      rw (next network_ip prefix_len (omega arith)) (rw (whole, start) at c)

-- For a configuration whose length is accepted, and a network that is not the whole address space and ends
-- inside it, the loop ends and gives virtual networks of the chosen length side by side from the first to
-- the last address of the network, at least four of them, if flannel's Next is the network behind.
pub virtual_networks-covers :
    (lib : Ip4) (network_ip prefix_len given len : ℕ)
    → IsNext lib
    → choose_subnet_len prefix_len given ≡ ok len
    → 0 < prefix_len
    → network_ip + 2 ^ (32 - prefix_len) ≤ address_space
    → (virtual_networks lib network_ip prefix_len len
        ≡ some (side_by_side lib len (2 ^ (32 - len)) (2 ^ (len - prefix_len)) network_ip))
      × (span (2 ^ (32 - len)) (2 ^ (len - prefix_len)) ≡ 2 ^ (32 - prefix_len))
      × (4 ≤ 2 ^ (len - prefix_len))
virtual_networks-covers lib network_ip prefix_len given len next h positive fits =
    let (low, high) = choose_subnet_len-bounds prefix_len given len h in
    let e : 2 + (len - prefix_len - 2) ≡ len - prefix_len = omega arith in
    (
      virtual_networks-side_by_side lib next network_ip prefix_len len positive (omega arith)
          (omega arith) fits,
      span-whole prefix_len len (omega arith) (omega arith),
      rw e at (pow_grows 2 (len - prefix_len - 2)),
    )
