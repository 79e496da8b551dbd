-- ===== src/Cni.antt =====
-- internal/pkg/cniserver/cni.go: which interfaces a pod gets for its annotation, with which default gateway,
-- and the result that is given back. The decoding of the annotations and the work in the pod's network
-- namespace are operations of a record.
pub mod Defaults
pub mod Indices
pub mod Parts
pub mod Rounds
pub mod Merging
pub mod Attached
use icn_nodus.Common.{
  nat_eq, if◌then◌else◌, is_some, is_blank, length, is_empty, ℕ, ◌+◌, String, Bool, false, not,
  ◌&&◌, ◌||◌, Option, none, some, List, [], ◌∷◌, ◌++◌, ◌==◌,
}
use icn_nodus.Effect.{Result, ok, err, M, ◌>>=◌, ◌>>◌, pure, panic, try, ask}

-- ovnNetwork
pub record OvnNetwork : Type 0 where
  pub ip_address : List String
  pub mac_address : String
  pub gateway_ip : List String
  pub default_gateway : String
  pub interface : String

-- CNIServerRequest: the name of the requested network is none where there is no configuration
pub record CniRequest : Type 0 where
  pub sandbox_id : String
  pub netns : String
  pub if_name : String
  pub nfn_network : Option String

-- types.Result: an address refers to an interface by its position, and a route is one to 0.0.0.0/0.
pub record IpConfig : Type 0 where
  pub interface : ℕ
  pub address : String
  pub gateway : String

pub record CniResult : Type 0 where
  pub interfaces : List String
  pub ips : List IpConfig
  pub routes : List String

-- What app.ConfigureInterface gets of one network.
pub record Attachment : Type 0 where
  pub namespace : String
  pub pod : String
  pub net : OvnNetwork
  pub default_gateway : String
  pub index : ℕ
  pub is_default : Bool

pub record CniClients : Type 0 where
  -- json.Unmarshal of the two annotations; the second gives names with their interfaces
  pub ovn_networks : String → Option (List OvnNetwork)
  pub nfn_interfaces : String → Option (List (String × String))
  -- app.ConfigureInterface, with the interfaces that it made
  pub configure : CniRequest → Attachment → M (List String)

-- The value of defaultGateway, and isDefaultGW behind it.
unfoldable pub decide : String → OvnNetwork → Bool → String × Bool
decide if_name net seen =
    let star = net.interface == "*" in
    let asks = not star && net.default_gateway == "true" in
    let seen' = seen || asks in
    (
      if star
          then (if not (if_name == "eth0") then "false" else if seen' then "false" else "true")
          else (if asks && seen then "false" else net.default_gateway),
      seen',
    )

abbrev pub shifted : ℕ → List IpConfig → List IpConfig
shifted n [] = []
shifted n (ip ∷ ips) = record ip { interface = ip.interface + n } ∷ shifted n ips

-- mergeWithResult, with the DNS left out
unfoldable pub merge_with_result : CniResult → Option CniResult → CniResult
merge_with_result src none = src
merge_with_result src (some dst) = record {
  interfaces = dst.interfaces ++ src.interfaces;
  ips = dst.ips ++ shifted (length dst.interfaces) src.ips;
  routes = dst.routes ++ src.routes;
}

abbrev pub with_config : String → String → Option (List IpConfig) → Option (List IpConfig)
with_config ip gateway none = none
with_config ip gateway (some ips) =
    some (record { interface = 1; address = ip; gateway = gateway } ∷ ips)

-- gatewayIP[i], with the rest of the loop
abbrev pub with_gateway :
    String → List String → (List String → M (Option (List IpConfig))) → M (Option (List IpConfig))
with_gateway ip [] rest = panic
with_gateway ip (gateway ∷ gateways) rest =
    rest gateways >>= λ ips. pure (with_config ip gateway ips)

-- generateIpConfigs: `none` for an address that does not parse
unfoldable pub generate_ip_configs : List String → List String → M (Option (List IpConfig))
generate_ip_configs [] gateways = pure (some [])
generate_ip_configs (ip ∷ ips) gateways =
    let rest = generate_ip_configs ips in
    ask (λ env _. is_some (env.parse_cidr ip)) >>= λ parses.
    if parses then with_gateway ip gateways rest else pure none

-- The tests of one network before it is configured.
abbrev pub is_complete : OvnNetwork → Bool
is_complete net =
    not (is_empty net.ip_address)
    && not (is_blank net.mac_address)
    && not (is_blank net.interface)
    && nat_eq (length net.ip_address) (length net.gateway_ip)

-- The interface of the requested network: the first of its name.
abbrev pub requested_interface : List (String × String) → String → String
requested_interface [] name = ""
requested_interface ((n, intf) ∷ rest) name =
    if name == n then intf else requested_interface rest name

-- Which interfaces are wanted: all, or the one of the requested network. `no_list` is a request without
-- the annotation that lists the networks, whose nil pointer is followed.
pub data Wanted : Type 0 where
  every : Wanted
  no_list : Wanted
  only : String → Wanted

-- What a round does with a network: end with nil, panic, leave it out, or go on.
pub data Choice : Type 0 where
  ends : Choice
  panics : Choice
  left_out : Choice
  goes_on : Choice

unfoldable pub choose : Wanted → OvnNetwork → Choice
choose every net = goes_on
choose no_list net = panics
choose (only intf) net =
    if is_blank intf then ends else if net.interface == intf then goes_on else left_out

abbrev pub result_of_net : List String → String → List String → List IpConfig → CniResult
result_of_net interfaces default_gateway gateways ips = record {
  interfaces = interfaces;
  ips = ips;
  routes = if default_gateway == "true" then gateways else [];
}

-- With the interfaces that were made: the result of the network, where its addresses parse.
abbrev pub finish_net : OvnNetwork → String → Result (List String) → M (Option CniResult)
finish_net net default_gateway (err e) = pure none
finish_net net default_gateway (ok interfaces) =
    generate_ip_configs net.ip_address net.gateway_ip >>= λ ips. pure (elim ips [
      | none ↦ none
      | some l ↦ some (result_of_net interfaces default_gateway net.gateway_ip l)
    ])

abbrev pub wanted_of : CniClients → String → String → M (Option Wanted)
wanted_of clients name annotation =
    if is_blank name
    then pure (some every)
    else if is_blank annotation
    then pure (some no_list)
    else pure (elim (clients.nfn_interfaces annotation) [
      | none ↦ none
      | some l ↦ some (only (requested_interface l name))
    ])

abbrev pub network_name : Option String → String
network_name none = ""
network_name (some name) = name

module _ (clients : CniClients) (req : CniRequest) (namespace pod : String) where
  -- The steps for one network that is not left out.
  unfoldable pub attach_net : OvnNetwork → String → ℕ → Bool → M (Option CniResult)
  attach_net net default_gateway index is_default = do
    made ← try (
        clients.configure req (record {
          namespace = namespace;
          pod = pod;
          net = net;
          default_gateway = default_gateway;
          index = index;
          is_default = is_default;
        }))
    finish_net net default_gateway made

  -- The loop of AddMultipleInterfaces with the number of the network, isDefaultGW and the result so far;
  -- `none` is a result that is nil.
  unfoldable pub attach_nets :
      Wanted → ℕ → Bool → List OvnNetwork → Option CniResult → M (Option CniResult)
  attach_nets wanted index seen [] found = pure found
  attach_nets wanted index seen (net ∷ nets) found =
      let decided = decide req.if_name net seen in
      let rest = attach_nets wanted (index + 1) decided.1 nets in
      if not (is_complete net) then pure none else elim (choose wanted net) [
        | ends ↦ pure none
        | panics ↦ panic
        | left_out ↦ rest found
        | goes_on ↦ attach_net net decided.0 (index + 1) decided.1 >>= λ made. elim made [
          | none ↦ pure none
          | some r ↦ rest (some (merge_with_result r found))
        ]
      ]

  abbrev pub with_networks : Wanted → Option (List OvnNetwork) → M (Option CniResult)
  with_networks wanted none = pure none
  with_networks wanted (some nets) =
      if is_blank namespace || is_blank pod then pure none else attach_nets wanted 0 false nets none

  -- AddMultipleInterfaces
  unfoldable pub add_multiple_interfaces : String → String → M (Option CniResult)
  add_multiple_interfaces nfn_annotation ovn_annotation =
      wanted_of clients (network_name req.nfn_network) nfn_annotation >>= λ wanted. elim wanted [
        | none ↦ pure none
        | some w ↦
            with_networks w
              (if is_blank ovn_annotation then none else clients.ovn_networks ovn_annotation)
      ]
