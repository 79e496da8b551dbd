-- ===== src/Ovn/Ports.antt =====
-- internal/pkg/ovn/ovn.go: the logical ports of nodes and pods.
use icn_nodus.Common.{
  if◌then◌else◌, sprint, is_blank, take_text, String, Option, none, some, List, [], ◌∷◌,
}
use icn_nodus.Api.{Pod}
use icn_nodus.Effect.{message, Result, ok, err, Env, M, ◌>>=◌, pure, raise, try, ask}
use icn_nodus.Ovn.Exec.{run_ovn_nbctl, must}
use icn_nodus.Ovn.Switch.{generate_mac}
use icn_nodus.Ovn.Network.{ovn4nfv_default_nw}
use icn_nodus.Ovn.Gateway.{
  get_gateway_from_switch, compose_addresses, family_address, poll, poll_count, address_parts,
}

-- GetNodeIntfName of internal/pkg/config/config.go
unfoldable pub get_node_intf_name : Env → String → String
get_node_intf_name env node = sprint ("ovn4nfv0-" ∷ take_text 6 (env.sha1 node) ∷ [])

abbrev dynamic_args : String → List String
dynamic_args port = "get" ∷ "logical_switch_port" ∷ port ∷ "dynamic_addresses" ∷ []

-- The addresses of a node's port: IPv4, IPv6 and MAC.
pub record NodeAddresses : Type 0 where
  pub ip : String
  pub ipv6 : String
  pub mac : String

abbrev no_addresses : NodeAddresses
no_addresses = record { ip = ""; ipv6 = ""; mac = "" }

-- A wait that timed out, and a reply with less than two parts, give no addresses and no error.
abbrev node_reply : String → List String → M NodeAddresses
node_reply switch (mac ∷ a ∷ rest) = do
  gateways ← get_gateway_from_switch switch
  ip ← family_address (a ∷ rest) gateways "."
  ipv6 ← family_address (a ∷ rest) gateways ":"
  pure (record { ip = ip; ipv6 = ipv6; mac = mac })
node_reply switch _ = pure no_addresses

abbrev node_addresses : String → Option String → M NodeAddresses
node_addresses switch none = pure no_addresses
node_addresses switch (some out) = node_reply switch (address_parts out)

unfoldable pub add_node_logical_port_with_switch : String → String → M NodeAddresses
add_node_logical_port_with_switch switch port = do
  _ ← must (
      run_ovn_nbctl (
        "--wait=sb" ∷ "--" ∷ "--may-exist" ∷ "lsp-add" ∷ switch ∷ port ∷ "--" ∷ "lsp-set-addresses"
        ∷ port ∷ "dynamic" ∷ []))
  out ← poll (dynamic_args port) poll_count
  node_addresses switch out

-- AddNodeLogicalPorts
unfoldable pub add_node_logical_ports : String → M NodeAddresses
add_node_logical_ports node = do
  port ← ask (λ env _. get_node_intf_name env (env.to_lower node))
  add_node_logical_port_with_switch ovn4nfv_default_nw port

abbrev first_two : List String → String × String
first_two (mac ∷ ip ∷ []) = (ip, "")
first_two (mac ∷ ip ∷ ipv6 ∷ rest) = (ip, ipv6)
first_two _ = ("", "")

abbrev port_addresses : Option String → String × String
port_addresses none = ("", "")
port_addresses (some out) = first_two (address_parts out)

-- getNodeLogicalPortIPAddr
unfoldable pub get_node_logical_port_ip_addr : Pod → M (String × String)
get_node_logical_port_ip_addr pod = do
  port ← ask (λ env _. get_node_intf_name env (env.to_lower pod.node_name))
  out ← poll (dynamic_args port) poll_count
  pure (port_addresses out)

-- The gateway of a port: the given one, or the addresses of the pod's node.
unfoldable pub port_gateway : Pod → String → M (String × String)
port_gateway pod gwip = if is_blank gwip then get_node_logical_port_ip_addr pod else pure (gwip, "")

abbrev external_ids : Pod → String → List String
external_ids pod switch =
    sprint ("external-ids:namespace=" ∷ pod.namespace ∷ [])
    ∷ sprint ("external-ids:logical_switch=" ∷ switch ∷ [])
    ∷ "external-ids:pod=true"
    ∷ []

unfoldable pub add_static_port : Pod → String → String → String → String → M String
add_static_port pod switch ip mac port = must (
    run_ovn_nbctl (
      "--may-exist"
      ∷ "lsp-add"
      ∷ switch
      ∷ port
      ∷ "--"
      ∷ "lsp-set-addresses"
      ∷ port
      ∷ sprint (mac ∷ " " ∷ ip ∷ [])
      ∷ "--"
      ∷ "--if-exists"
      ∷ "clear"
      ∷ "logical_switch_port"
      ∷ port
      ∷ "dynamic_addresses"
      ∷ "--"
      ∷ "set"
      ∷ "logical_switch_port"
      ∷ port
      ∷ external_ids pod switch))

unfoldable pub add_dynamic_port : Pod → String → String → M String
add_dynamic_port pod switch port = must (
    run_ovn_nbctl (
      "--wait=sb"
      ∷ "--"
      ∷ "--may-exist"
      ∷ "lsp-add"
      ∷ switch
      ∷ port
      ∷ "--"
      ∷ "lsp-set-addresses"
      ∷ port
      ∷ "dynamic"
      ∷ "--"
      ∷ "set"
      ∷ "logical_switch_port"
      ∷ port
      ∷ external_ids pod switch))

unfoldable pub annotation_text : String → String → String → String
annotation_text addresses mac gateways = sprint (
    "{\\\"ip_address\\\":[" ∷ addresses ∷ "], \\\"mac_address\\\":\\\"" ∷ mac
    ∷ "\\\", \\\"gateway_ip\\\": [" ∷ gateways ∷ "]}" ∷ [])

abbrev port_reply : Pod → String → String → List String → M String
port_reply pod switch gwip (mac ∷ a ∷ rest) = do
  gateways ← get_gateway_from_switch switch
  gw ← port_gateway pod gwip
  ip ← family_address (a ∷ rest) gateways "."
  ipv6 ← family_address (a ∷ rest) gateways ":"
  pure (annotation_text (compose_addresses ip ipv6) mac (compose_addresses gw.0 gw.1))
port_reply pod switch gwip _ = raise (message "")

abbrev port_annotation : Pod → String → String → Option String → M String
port_annotation pod switch gwip none = raise (message "")
port_annotation pod switch gwip (some out) = port_reply pod switch gwip (address_parts out)

-- The MAC address of a port with a static address.
unfoldable pub static_mac : String → M String
static_mac mac = if is_blank mac then generate_mac else pure mac

-- The steps of addLogicalPortWithSwitch up to an early return, which is an error here.
unfoldable pub port_steps : Pod → String → String → String → String → String → M String
port_steps pod switch ip mac gwip port =
    if is_blank ip
    then (add_dynamic_port pod switch port >>= λ _.
        poll (dynamic_args port) poll_count >>= port_annotation pod switch gwip)
    else (static_mac mac >>= λ mac'. add_static_port pod switch ip mac' port >>= λ _.
        poll ("get" ∷ "logical_switch_port" ∷ port ∷ "addresses" ∷ []) poll_count
        >>= port_annotation pod switch gwip)

abbrev or_blank : Result String → String
or_blank (ok s) = s
or_blank (err e) = ""

-- addLogicalPortWithSwitch: the annotation, blank if a step failed
unfoldable pub add_logical_port_with_switch :
    Pod → String → String → String → String → String → M String
add_logical_port_with_switch pod switch ip mac gwip port =
    if pod.host_network
    then pure ""
    else (try (port_steps pod switch ip mac gwip port) >>= λ r. pure (or_blank r))
