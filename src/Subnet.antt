-- ===== src/Subnet.antt =====
-- internal/pkg/network/subnet.go: the configured network cut into virtual networks. The JSON is decoded
-- before the model. An address is a number below 2 ^ 32 and its arithmetic wraps around; flannel's
-- library is the parameter `Ip4`.
pub mod Covering
use Prim.Native.String
use mathlib.Core.Option
use icn_nodus.Common.{
  ltb, leb, nat_eq, if◌then◌else◌, sprint, itoa, ℕ, zero, suc, ◌+◌, ◌-◌, ◌%◌, ◌^◌, String, Bool,
  not, Option, none, some, List, [], ◌∷◌, map,
}
use icn_nodus.Api.{IpSubnet}
use icn_nodus.Effect.{message, Result, ok, err}

-- What the code calls of flannel's package ip: whether a network contains an address, the first address
-- of the next network, and the text of an address.
pub record Ip4 : Type 0 where
  pub contains_ip : ℕ → ℕ → ℕ → Bool
  pub next_network : ℕ → ℕ → ℕ
  pub text : ℕ → String

pub record Config : Type 0 where
  pub network_ip : ℕ
  pub prefix_len : ℕ
  pub subnet_min : ℕ
  pub subnet_max : ℕ
  pub subnet_len : ℕ

abbrev pub address_space : ℕ
address_space = 4294967296

-- The length of the virtual networks' prefix: the given one, or one that gives at least four.
unfoldable pub choose_subnet_len : ℕ → ℕ → Result ℕ
choose_subnet_len prefix_len given =
    if ltb 0 given
    then (if ltb 30 given
        then err (message "SubnetLen must be less than /31")
        else if ltb given (prefix_len + 2)
        then err (message "Network must be able to accommodate at least four subnets")
        else ok given)
    else if ltb 28 prefix_len
    then err (message "Network is too small. Minimum useful network prefix is /28")
    else if leb prefix_len 22
    then ok 24
    else ok (prefix_len + 2)

unfoldable pub subnet_size : ℕ → ℕ
subnet_size len = 2 ^ (32 - len)

-- SubnetMin and SubnetMax: the default, or the given one if it is in the network.
unfoldable pub subnet_min_of : Ip4 → Config → ℕ → Result ℕ
subnet_min_of lib cfg size =
    if nat_eq cfg.subnet_min 0
    then ok ((cfg.network_ip + size) % address_space)
    else if lib.contains_ip cfg.network_ip cfg.prefix_len cfg.subnet_min
    then ok cfg.subnet_min
    else err (message "SubnetMin is not in the range of the Network")

unfoldable pub subnet_max_of : Ip4 → Config → ℕ → Result ℕ
subnet_max_of lib cfg size =
    if nat_eq cfg.subnet_max 0
    then ok
        ((lib.next_network cfg.network_ip cfg.prefix_len + address_space - size) % address_space)
    else if lib.contains_ip cfg.network_ip cfg.prefix_len cfg.subnet_max
    then ok cfg.subnet_max
    else err (message "SubnetMax is not in the range of the Network")

-- `ip != ip & mask`, where the mask clears the bits below the size, a power of two.
abbrev off_boundary : ℕ → ℕ → Bool
off_boundary size ip = not (nat_eq (ip % size) 0)

abbrev pub virtual_network : Ip4 → ℕ → ℕ → IpSubnet
virtual_network lib len ip = record {
  name = "nil";
  subnet = sprint (lib.text ip ∷ "/" ∷ itoa len ∷ []);
  gateway = sprint (lib.text ((ip + 1) % address_space) ∷ "/" ∷ itoa len ∷ []);
  exclude_ips = lib.text ((ip + 2) % address_space);
}

-- The loop from `current` until `stop`, on fuel; there is no answer if the fuel ran out.
unfoldable pub cut : Ip4 → ℕ → ℕ → ℕ → ℕ → ℕ → Option (List IpSubnet)
cut lib len size stop zero current = none
cut lib len size stop (suc fuel) current =
    let rest = cut lib len size stop fuel ((current + size) % address_space) in
    if nat_eq current stop
    then some []
    else Option.map (λ vn. virtual_network lib len current ∷ vn) rest

-- The loop for a network: no more rounds than there are addresses.
unfoldable pub virtual_networks : Ip4 → ℕ → ℕ → ℕ → Option (List IpSubnet)
virtual_networks lib network_ip prefix_len len =
    cut lib len (subnet_size len) (lib.next_network network_ip prefix_len) address_space network_ip

-- The check of the result; a loop that does not end has no answer.
unfoldable pub check_networks : Option (List IpSubnet) → Option (Result (List IpSubnet))
check_networks none = none
check_networks (some []) =
    some (err (message "value of virtual network is nil, user subnet is not right"))
check_networks (some (n ∷ vn)) = some (ok (n ∷ vn))

unfoldable pub cut_checked :
    Ip4 → Config → ℕ → Result ℕ → Result ℕ → Option (Result (List IpSubnet))
cut_checked lib cfg len (err e) high = some (err e)
cut_checked lib cfg len (ok low) (err e) = some (err e)
cut_checked lib cfg len (ok low) (ok high) =
    if off_boundary (subnet_size len) low
    then some
        (err (message (sprint ("SubnetMin is not on a SubnetLen boundary: " ∷ lib.text low ∷ []))))
    else if off_boundary (subnet_size len) high
    then some
        (err (message (sprint ("SubnetMax is not on a SubnetLen boundary: " ∷ lib.text high ∷ []))))
    else check_networks (virtual_networks lib cfg.network_ip cfg.prefix_len len)

abbrev with_len : Ip4 → Config → Result ℕ → Option (Result (List IpSubnet))
with_len lib cfg (err e) = some (err e)
with_len lib cfg (ok len) =
    cut_checked lib cfg len (subnet_min_of lib cfg (subnet_size len))
      (subnet_max_of lib cfg (subnet_size len))

-- ParseConfig on the decoded configuration
unfoldable pub parse_config : Ip4 → Config → Option (Result (List IpSubnet))
parse_config lib cfg = with_len lib cfg (choose_subnet_len cfg.prefix_len cfg.subnet_len)
