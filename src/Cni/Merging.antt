-- ===== src/Cni/Merging.antt =====
-- internal/pkg/cniserver/cni.go: what the merged results of the networks add up to.
use icn_nodus.Common.{
  if◌then◌else◌, length, get_elem?, All, ℕ, zero, suc, ◌+◌, ◌≤◌, ◌<◌, String, ◌≡◌, refl, ap, ◌∙◌,
  Option, none, some, List, [], ◌∷◌, ◌++◌, append-nil, append_assoc, arith, ◌==◌,
}
use icn_nodus.Cni.{IpConfig, CniResult, shifted, merge_with_result}
use icn_nodus.Cni.Indices.{RefersWithin, IsClosed, merge_with_result-IsClosed}
use icn_nodus.Cni.Parts.{Part, configs, part_result, merged}

-- An address with its gateway, and the name of the interface that it is on.
abbrev pub Addressed : Type 0
Addressed = String × String × Option String

-- The addresses of a result on the interfaces that they refer to.
abbrev pub resolved : List String → List IpConfig → List Addressed
resolved interfaces [] = []
resolved interfaces (ip ∷ ips) =
    (ip.address, ip.gateway, get_elem? interfaces ip.interface) ∷ resolved interfaces ips

-- The addresses of a network, each with the gateway at its place, on one interface.
abbrev pub addresses_on : Option String → List String → List String → List Addressed
addresses_on interface [] gateways = []
addresses_on interface (ip ∷ ips) [] = []
addresses_on interface (ip ∷ ips) (gateway ∷ gateways) =
    (ip, gateway, interface) ∷ addresses_on interface ips gateways

abbrev pub all_interfaces : List Part → List String
all_interfaces [] = []
all_interfaces (p ∷ ps) = p.made ++ all_interfaces ps

abbrev pub part_addresses : Part → List Addressed
part_addresses p =
    addresses_on (get_elem? p.made 1) p.attachment.net.ip_address p.attachment.net.gateway_ip

-- The addresses of each part on the second of the interfaces that were made for it.
abbrev pub all_addresses : List Part → List Addressed
all_addresses [] = []
all_addresses (p ∷ ps) = part_addresses p ++ all_addresses ps

abbrev pub part_routes : Part → List String
part_routes p = if p.attachment.default_gateway == "true" then p.attachment.net.gateway_ip else []

-- The gateways of the parts that were given a default gateway.
abbrev pub all_routes : List Part → List String
all_routes [] = []
all_routes (p ∷ ps) = part_routes p ++ all_routes ps

get_elem?-first : (a b : List String) (i : ℕ) → i < length a → get_elem? (a ++ b) i ≡ get_elem? a i
get_elem?-first [] b i h = let no : ⊥ = omega (arith, h) in elim no [ ]
get_elem?-first (x ∷ a) b zero h = refl
get_elem?-first (x ∷ a) b (suc i) h = get_elem?-first a b i (omega (arith, h))

get_elem?-second :
    (a b : List String) (i j : ℕ) → j ≡ length a + i → get_elem? (a ++ b) j ≡ get_elem? b i
get_elem?-second [] b i j e = ap (get_elem? b) (omega (arith, e))
get_elem?-second (x ∷ a) b i zero e = let no : ⊥ = omega (arith, e) in elim no [ ]
get_elem?-second (x ∷ a) b i (suc j) e = get_elem?-second a b i j (omega (arith, e))

resolved-append :
    (interfaces : List String) (a b : List IpConfig)
    → resolved interfaces (a ++ b) ≡ resolved interfaces a ++ resolved interfaces b
resolved-append interfaces [] b = refl
resolved-append interfaces (ip ∷ a) b =
    ap (λ l. (ip.address, ip.gateway, get_elem? interfaces ip.interface) ∷ l)
      (resolved-append interfaces a b)

resolved-first :
    (a b : List String) (ips : List IpConfig)
    → All (RefersWithin (length a)) ips
    → resolved (a ++ b) ips ≡ resolved a ips
resolved-first a b [] h = refl
resolved-first a b (ip ∷ ips) (p, h) =
    rw (get_elem?-first a b ip.interface p, resolved-first a b ips h) refl

resolved-shifted :
    (a b : List String) (ips : List IpConfig)
    → resolved (a ++ b) (shifted (length a) ips) ≡ resolved b ips
resolved-shifted a b [] = refl
resolved-shifted a b (ip ∷ ips) =
    rw
      (
        get_elem?-second a b ip.interface (ip.interface + length a) (omega arith),
        resolved-shifted a b ips,
      )
      refl

-- A result with the interfaces, the addresses on them and the routes.
pub record Holds (interfaces : List String) (addresses : List Addressed) (routes : List String)
    (r : CniResult) : Type 0 where
  pub is_interfaces : r.interfaces ≡ interfaces
  pub is_addresses : resolved r.interfaces r.ips ≡ addresses
  pub is_routes : r.routes ≡ routes
  pub closed : IsClosed r

resolved-configs :
    (made ips gateways : List String)
    → resolved made (configs ips gateways) ≡ addresses_on (get_elem? made 1) ips gateways
resolved-configs made [] gateways = refl
resolved-configs made (ip ∷ ips) [] = refl
resolved-configs made (ip ∷ ips) (gateway ∷ gateways) = rw (resolved-configs made ips gateways) refl

configs-within :
    (n : ℕ) (ips gateways : List String) → 2 ≤ n → All (RefersWithin n) (configs ips gateways)
configs-within n [] gateways h = tt
configs-within n (ip ∷ ips) [] h = tt
configs-within n (ip ∷ ips) (gateway ∷ gateways) h =
    (omega (arith, h), configs-within n ips gateways h)

abbrev pub HasTwo : Part → Type 0
HasTwo p = 2 ≤ length p.made

part_result-Holds :
    (p : Part) → HasTwo p → Holds p.made (part_addresses p) (part_routes p) (part_result p)
part_result-Holds p h = record {
  is_interfaces = refl;
  is_addresses = resolved-configs p.made p.attachment.net.ip_address p.attachment.net.gateway_ip;
  is_routes = refl;
  closed = configs-within (length p.made) p.attachment.net.ip_address p.attachment.net.gateway_ip h;
}

merge_with_result-Holds :
    (i j : List String) (a b : List Addressed) (s t : List String) (src dst : CniResult)
    → Holds j b t src
    → Holds i a s dst
    → Holds (i ++ j) (a ++ b) (s ++ t) (merge_with_result src (some dst))
unfolding merge_with_result
merge_with_result-Holds i j a b s t src dst x y = record {
  is_interfaces = rw (x.is_interfaces, y.is_interfaces) refl;
  is_addresses =
      resolved-append (dst.interfaces ++ src.interfaces) dst.ips
        (shifted (length dst.interfaces) src.ips)
      ∙ rw
          (
            resolved-first dst.interfaces src.interfaces dst.ips y.closed,
            resolved-shifted dst.interfaces src.interfaces src.ips,
            x.is_addresses,
            y.is_addresses,
          )
          refl;
  is_routes = rw (x.is_routes, y.is_routes) refl;
  closed = merge_with_result-IsClosed src (some dst) x.closed y.closed;
}

merged-Holds :
    (i : List String) (a : List Addressed) (s : List String) (parts : List Part) (dst r : CniResult)
    → Holds i a s dst
    → All HasTwo parts
    → merged (some dst) parts ≡ some r
    → Holds (i ++ all_interfaces parts) (a ++ all_addresses parts) (s ++ all_routes parts) r
merged-Holds i a s [] dst r x h e =
    let same : dst ≡ r = cc in rw (append-nil i, append-nil a, append-nil s, ← same) x
merged-Holds i a s (p ∷ parts) dst r x (two, h) e =
    rw
      (
        ← append_assoc i p.made (all_interfaces parts),
        ← append_assoc a (part_addresses p) (all_addresses parts),
        ← append_assoc s (part_routes p) (all_routes parts),
      )
      (merged-Holds (i ++ p.made) (a ++ part_addresses p) (s ++ part_routes p) parts _ r
        (merge_with_result-Holds i p.made a (part_addresses p) s (part_routes p) (part_result p) dst
          (part_result-Holds p two) x)
        h e)

pub merged_parts-Holds :
    (parts : List Part) (r : CniResult)
    → All HasTwo parts
    → merged none parts ≡ some r
    → Holds (all_interfaces parts) (all_addresses parts) (all_routes parts) r
unfolding merge_with_result
merged_parts-Holds [] r h e = cc
merged_parts-Holds (p ∷ parts) r (two, h) e =
    merged-Holds p.made (part_addresses p) (part_routes p) parts (part_result p) r
      (part_result-Holds p two) h e
