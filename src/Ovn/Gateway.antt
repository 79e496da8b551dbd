-- ===== src/Ovn/Gateway.antt =====
-- internal/pkg/ovn/ovn.go: the gateways of a logical switch, cached by the controller, and the
-- addresses of a port.
pub mod Cache
pub mod Addresses
pub mod Polling
use Prim.Native.String
use mathlib.Core.Option
use icn_nodus.Common.{
  if◌then◌else◌, sprint, is_blank, split, contains, trim_left, trim_right, trim, ℕ, zero, suc,
  String, not, ◌&&◌, Option, none, some, List, [], ◌∷◌, map, ◌==◌,
}
use icn_nodus.Api.{Labels, lookup, insert}
use icn_nodus.Effect.{
  message, Result, ok, err, sleep, done, M, ◌>>=◌, ◌>>◌, pure, raise, check, of_result, log, index,
}
use icn_nodus.Ovn.Exec.{run_ovn_nbctl, must}

-- An address with its mask, from a text with exactly one slash.
abbrev pub ip_and_mask : List String → Option (String × String)
ip_and_mask (ip ∷ mask ∷ []) = some (ip, mask)
ip_and_mask _ = none

abbrev add_gateway :
    Option (String × String)
    → Result (List String × List String)
    → Result (List String × List String)
add_gateway none rest = err (message "Failed to get IP and Mask from gateway CIDR")
add_gateway (some g) (err e) = err e
add_gateway (some (ip, mask)) (ok (ips, masks)) = ok (ip ∷ ips, mask ∷ masks)

-- The loop over the gateways: their addresses and their masks.
unfoldable pub parse_gateways : List String → Result (List String × List String)
parse_gateways [] = ok ([], [])
parse_gateways (g ∷ gs) = add_gateway (ip_and_mask (split b'/' g)) (parse_gateways gs)

abbrev pub get_gateway_args : String → List String
get_gateway_args switch =
    "--if-exists" ∷ "get" ∷ "logical_switch" ∷ switch ∷ "external_ids:gateway_ip" ∷ []

abbrev pub set_cache : Labels → M (Unit {0})
set_cache cache env w = done tt (record w { gateway_cache = cache })

abbrev pub get_cache : M Labels
get_cache env w = done w.gateway_cache w

-- The text of the gateways: from the cache, or from OVN, and then put into the cache.
unfoldable pub gateway_text : String → Option String → M String
gateway_text switch (some text) = pure text
gateway_text switch none = do
  text ← must (run_ovn_nbctl (get_gateway_args switch))
  if is_blank text
      then raise (message (sprint ("Empty gateway IP in logical switch " ∷ switch ∷ [])))
      else (get_cache >>= λ cache. set_cache (insert switch text cache) >> pure text)

unfoldable pub get_gateway_from_switch : String → M (List String × List String)
get_gateway_from_switch switch = do
  cache ← get_cache
  text ← gateway_text switch (lookup switch cache)
  of_result (parse_gateways (split b',' text))

-- findIndex; no index is the code's -1
unfoldable pub find_index : List String → String → Option ℕ
find_index [] separator = none
find_index (a ∷ rest) separator =
    let later = Option.map suc (find_index rest separator) in
    if contains a separator then some 0 else later

unfoldable pub compose_addresses : String → String → String
compose_addresses ipv4 ipv6 =
    let first = if is_blank ipv4 then "" else sprint ("\\\"" ∷ ipv4 ∷ "\\\"" ∷ []) in
    let comma = if not (is_blank first) && not (is_blank ipv6) then "," else "" in
    let second = if is_blank ipv6 then "" else sprint ("\\\"" ∷ ipv6 ∷ "\\\"" ∷ []) in
    sprint (first ∷ comma ∷ second ∷ [])

-- The address of one family with its mask, if the port and the switch both have one.
abbrev pub masked : List String → List String → Option ℕ → Option ℕ → M String
masked addresses masks none j = pure ""
masked addresses masks (some i) none = pure ""
masked addresses masks (some i) (some j) = do
  a ← index addresses i
  m ← index masks j
  pure (sprint (a ∷ "/" ∷ m ∷ []))

unfoldable pub family_address : List String → List String × List String → String → M String
family_address addresses (gateways, masks) separator =
    masked addresses masks (find_index addresses separator) (find_index gateways separator)

-- The wait for a port's addresses: the count is the number of polls left, with a second between two;
-- no answer if it reached zero.
unfoldable pub poll : List String → ℕ → M (Option String)
poll args zero = pure none
poll args (suc count) = do
  out ← run_ovn_nbctl args
  check out.error
  if out.stdout == "[]" then (log (sleep 1) >> poll args count) else pure (some out.stdout)

abbrev pub poll_count : ℕ
poll_count = 30

-- The parts of a reply: the MAC address and the addresses of the port.
unfoldable pub address_parts : String → List String
address_parts out = split b' ' (trim b'"' (trim_right b']' (trim_left b'[' out)))
