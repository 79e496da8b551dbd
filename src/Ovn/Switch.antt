-- ===== src/Ovn/Switch.antt =====
-- internal/pkg/ovn/common.go: logical switches, the distributed router and addresses.
pub mod NextIp
use Prim.Native.String
use icn_nodus.Common.{
  nat_eq, if◌then◌else◌, sprint, is_blank, itoa, hex_byte, length, drop, ℕ, zero, suc, ◌+◌, ◌*◌,
  ◌/◌, ◌%◌, String, Bool, false, not, ◌&&◌, Option, none, some, List, [], ◌∷◌, ◌++◌, ◌==◌,
}
use icn_nodus.Effect.{Error, message, Cidr, Env, M, ◌>>=◌, ◌>>◌, pure, raise, panic, ask}
use icn_nodus.Ovn.Exec.{run_ovn_nbctl, must}
use icn_nodus.Api.{network}

-- big.Int.SetBytes behind a prefix with the value `acc`.
abbrev pub set_bytes : ℕ → List ℕ → ℕ
set_bytes acc [] = acc
set_bytes acc (b ∷ bs) = set_bytes (acc * 256 + b) bs

-- Ten bytes of zero and two of 255
abbrev pub is_zero_for : ℕ → List ℕ → Bool
is_zero_for zero (x ∷ y ∷ bytes) = nat_eq x 255 && nat_eq y 255
is_zero_for (suc k) (x ∷ bytes) = nat_eq x 0 && is_zero_for k bytes
is_zero_for _ _ = false

abbrev pub is_mapped : List ℕ → Bool
is_mapped bytes = is_zero_for 10 bytes

-- IP.To4: an address of 4 bytes, or the end of one of 16 bytes that is mapped from IPv4
unfoldable pub to4 : List ℕ → Option (List ℕ)
to4 bytes =
    if nat_eq (length bytes) 4
    then some bytes
    else if nat_eq (length bytes) 16 && is_mapped bytes
    then some (drop 12 bytes)
    else none

-- IP.To16, for the bytes that are no IPv4 address
unfoldable pub to16 : List ℕ → List ℕ
to16 bytes = if nat_eq (length bytes) 16 then bytes else []

abbrev pub or_bytes : Option (List ℕ) → List ℕ → List ℕ
or_bytes none bytes = bytes
or_bytes (some v4) bytes = v4

-- ipToInt: the bytes of an address, most significant first; other slices count as zero
unfoldable pub ip_to_int : List ℕ → ℕ
unfolding to4 to16
ip_to_int bytes = set_bytes 0 (or_bytes (to4 bytes) (to16 bytes))

-- The bytes of a number without leading zeros, as big.Int.Bytes gives them.
unfoldable pub bytes_rounds : ℕ → ℕ → List ℕ
bytes_rounds zero n = []
bytes_rounds (suc fuel) n =
    let higher = bytes_rounds fuel (n / 256) ++ (n % 256) ∷ [] in if nat_eq n 0 then [] else higher

unfoldable pub int_to_ip : ℕ → List ℕ
int_to_ip n = bytes_rounds (suc n) n

unfoldable pub next_ip : List ℕ → List ℕ
next_ip bytes = int_to_ip (ip_to_int bytes + 1)

unfoldable pub generate_mac : M String
generate_mac = do
  a ← ask (λ env trace. env.draw trace 0)
  b ← ask (λ env trace. env.draw trace 1)
  c ← ask (λ env trace. env.draw trace 2)
  pure (sprint ("00:00:00" ∷ ":" ∷ hex_byte a ∷ ":" ∷ hex_byte b ∷ ":" ∷ hex_byte c ∷ []))

abbrev or_else_ip : Option Cidr → Option String → Option String
or_else_ip (some c) o = some c.address
or_else_ip none o = o

-- The gateway's address: that of the text as a prefix, or as an address.
unfoldable pub gateway_ip : Env → String → Option String
gateway_ip env gateway =
    if is_blank gateway then none else or_else_ip (env.parse_cidr gateway) (env.parse_ip gateway)

abbrev mask_of : Env → Cidr → Option String → String
mask_of env cidr none = sprint (env.ip_text (next_ip cidr.bytes) ∷ "/" ∷ itoa cidr.ones ∷ [])
mask_of env cidr (some gw) = sprint (gw ∷ "/" ∷ itoa cidr.ones ∷ [])

abbrev pub cidr_and_mask : Env → Option Cidr → Option String → Option Cidr × String
cidr_and_mask env none gw = (none, "")
cidr_and_mask env (some cidr) gw = (some cidr, mask_of env cidr gw)

unfoldable pub get_cidr_and_gateway_ip_mask : Env → String → String → Option Cidr × String
unfolding gateway_ip
get_cidr_and_gateway_ip_mask env subnet gateway =
    cidr_and_mask env (env.parse_cidr subnet) (gateway_ip env gateway)

abbrev ipv6_config : Option Cidr → List String
ipv6_config none = []
ipv6_config (some c) = sprint ("other-config:ipv6_prefix=" ∷ c.base ∷ []) ∷ []

abbrev ipv4_config : Option Cidr → List String
ipv4_config none = []
ipv4_config (some c) = sprint ("other-config:subnet=" ∷ c.network ∷ []) ∷ []

unfoldable pub get_ovn_ls_other_config : Option Cidr → Option Cidr → List String
get_ovn_ls_other_config v4 v6 = ipv6_config v6 ++ ipv4_config v4

-- The gateways of a switch in one text.
unfoldable pub join_gateways : String → String → String
join_gateways v4 v6 =
    if is_blank v6 then v4 else if is_blank v4 then v6 else sprint (v4 ∷ "," ∷ v6 ∷ [])

unfoldable pub get_ovn_ls_external_ids : String → String → String
unfolding join_gateways
get_ovn_ls_external_ids v4 v6 =
    let gateways = join_gateways v4 v6 in
    if is_blank gateways then "" else sprint ("external-ids:gateway_ip=" ∷ gateways ∷ [])

abbrev exclude_arg : String → List String
exclude_arg exclude_ips =
    if is_blank exclude_ips
    then []
    else sprint ("other-config:exclude_ips=" ∷ exclude_ips ∷ []) ∷ []

-- The arguments of the command that creates the switch. The first entry of the configuration is read
-- without a test of its length.
unfoldable pub create_ls_args : String → List String → String → String → M (List String)
create_ls_args name [] external_ids exclude_ips = panic
create_ls_args name (first ∷ rest) external_ids exclude_ips = pure (
    "--wait=hv"
      ∷ "--"
      ∷ "--may-exist"
      ∷ "ls-add"
      ∷ name
      ∷ "--"
      ∷ "set"
      ∷ "logical_switch"
      ∷ name
      ∷ first
      ∷ second rest
    ++ external_ids ∷ exclude_arg exclude_ips)
  where
    second : List String → List String
    second [] = []
    second (x ∷ xs) = x ∷ []

abbrev find_switch_args : String → List String
find_switch_args name =
    "--data=bare"
    ∷ "--no-heading"
    ∷ "--columns=name"
    ∷ "find"
    ∷ "logical_switch"
    ∷ sprint ("name=" ∷ name ∷ [])
    ∷ []

abbrev pub ls_exists : Error
ls_exists = message "LS exists"

abbrev pub both_given : Env → String → String → Option Cidr × String
both_given env subnet gateway =
    if not (is_blank subnet) && not (is_blank gateway)
    then get_cidr_and_gateway_ip_mask env subnet gateway
    else (none, "")

-- createOvnLS where the switch is not there yet.
unfoldable pub create_new_ls :
    String → String → String → String → String → String → M (String × String)
create_new_ls name subnetv4 gateway_ipv4 exclude_ips subnetv6 gateway_ipv6 = do
  v4 ← ask (λ env _. both_given env subnetv4 gateway_ipv4)
  v6 ← ask (λ env _. both_given env subnetv6 gateway_ipv6)
  args ←
      create_ls_args name (get_ovn_ls_other_config v4.0 v6.0) (get_ovn_ls_external_ids v4.1 v6.1)
        exclude_ips
  _ ← must (run_ovn_nbctl args)
  pure (v4.1, v6.1)

-- createOvnLS returns the gateways with their prefix lengths.
unfoldable pub create_ovn_ls :
    String → String → String → String → String → String → M (String × String)
create_ovn_ls name subnetv4 gateway_ipv4 exclude_ips subnetv6 gateway_ipv6 = do
  output ← must (run_ovn_nbctl (find_switch_args name))
  if name == output
      then raise ls_exists
      else create_new_ls name subnetv4 gateway_ipv4 exclude_ips subnetv6 gateway_ipv6

-- A new port of the router, with a MAC address drawn for it.
unfoldable pub add_join_port : String → String → M String
add_join_port name router_port = do
  mac ← generate_mac
  _ ← must (
      run_ovn_nbctl (
        "--" ∷ "--may-exist" ∷ "lrp-add" ∷ name ∷ router_port ∷ mac ∷ "100.64.1.1/24" ∷ "--" ∷ "set"
        ∷ "logical_router_port" ∷ router_port ∷ "external_ids:connect_to_ovn4nfvjoin=yes" ∷ []))
  pure mac

unfoldable pub setup_distributed_router : String → M (Unit {0})
setup_distributed_router name = do
  _ ← must (
      run_ovn_nbctl (
        "--" ∷ "--may-exist" ∷ "lr-add" ∷ name ∷ "--" ∷ "set" ∷ "logical_router" ∷ name
        ∷ "external_ids:ovn4nfv-cluster-router=yes" ∷ []))
  _ ← must (run_ovn_nbctl ("--may-exist" ∷ "ls-add" ∷ "ovn4nfv-join" ∷ []))
  let router_port = sprint ("rtoj-" ∷ name ∷ [])
  found ←
      must (run_ovn_nbctl ("--if-exist" ∷ "get" ∷ "logical_router_port" ∷ router_port ∷ "mac" ∷ []))
  router_mac ← if is_blank found then add_join_port name router_port else pure found
  let switch_port = sprint ("jtor-" ∷ name ∷ [])
  _ ← must (
      run_ovn_nbctl (
        "--"
        ∷ "--may-exist"
        ∷ "lsp-add"
        ∷ "ovn4nfv-join"
        ∷ switch_port
        ∷ "--"
        ∷ "set"
        ∷ "logical_switch_port"
        ∷ switch_port
        ∷ "type=router"
        ∷ sprint ("options:router-port=" ∷ router_port ∷ [])
        ∷ sprint ("addresses=\"" ∷ router_mac ∷ "\"" ∷ [])
        ∷ []))
  pure tt
