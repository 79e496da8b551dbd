-- ===== src/Ovn/Interfaces.antt =====
-- internal/pkg/ovn/ovn.go: AddLogicalPorts, the ports of a pod's interfaces and its annotation.
use icn_nodus.Common.{
  if◌then◌else◌, is_some, sprint, is_blank, drop_last, String, Bool, false, not, ◌&&◌, ◌||◌, Option,
  none, some, List, [], ◌∷◌, ◌==◌,
}
use icn_nodus.Api.{lookup, Pod, NetFields}
use icn_nodus.Effect.{message, Result, ok, err, M, ◌>>=◌, ◌>>◌, pure, raise, try}
use icn_nodus.Pool.{create_network_from_pool}
use icn_nodus.Ovn.Network.{ovn4nfv_default_nw, find_logical_switch}
use icn_nodus.Ovn.Ports.{add_logical_port_with_switch}

pub record NetInterface : Type 0 where
  pub name : String
  pub interface : String
  pub net_type : String
  pub default_gateway : String
  pub ip_address : String
  pub mac_address : String
  pub gw_ip_address : String

abbrev keep : Option String → String → String
keep none old = old
keep (some s) old = s

-- mapstructure.Decode into a variable that is already set: a missing key leaves the field.
unfoldable pub decode : NetFields → NetInterface → NetInterface
decode f ns = record {
  name = keep f.name ns.name;
  interface = keep f.interface ns.interface;
  net_type = keep f.net_type ns.net_type;
  default_gateway = keep f.default_gateway ns.default_gateway;
  ip_address = keep f.ip_address ns.ip_address;
  mac_address = keep f.mac_address ns.mac_address;
  gw_ip_address = keep f.gw_ip_address ns.gw_ip_address;
}

abbrev pub blank_interface : NetInterface
blank_interface = record {
  name = "";
  interface = "";
  net_type = "";
  default_gateway = "";
  ip_address = "";
  mac_address = "";
  gw_ip_address = "";
}

-- The variables of the loop of AddLogicalPorts.
pub record PortState : Type 0 where
  pub ns : NetInterface
  pub ovn_string : String
  pub default_interface : Bool

-- Creating the network where it is missing; an early return is an error here, and so below.
unfoldable pub ensure_switch : String → Bool → M (Unit {0})
ensure_switch name is_extra = do
  found ← find_logical_switch name
  if not found && not is_extra then create_network_from_pool name else pure tt
  there ← find_logical_switch name
  if there then pure tt else raise (message "Logical Switch not found")

unfoldable pub quoted : String → String → String
quoted key value = sprint (",\\\"" ∷ key ∷ "\\\":\\\"" ∷ value ∷ "\\\"" ∷ [])

abbrev named_interface : NetInterface → NetInterface
named_interface ns = record ns {
  default_gateway = if is_blank ns.default_gateway then "false" else ns.default_gateway;
  interface = if is_blank ns.interface then "*" else ns.interface;
}

abbrev interface_port : Pod → NetInterface → String
interface_port pod ns =
    if is_blank ns.interface
    then sprint (pod.namespace ∷ "_" ∷ pod.name ∷ [])
    else sprint (pod.namespace ∷ "_" ∷ pod.name ∷ "_" ∷ ns.interface ∷ [])

abbrev push_annotation : PortState → NetInterface → String → M PortState
push_annotation s ns out =
    if is_blank out
    then raise (message "")
    else pure (record {
      ns = ns;
      ovn_string = sprint (
          s.ovn_string
          ∷ drop_last out
          ∷ quoted "defaultGateway" ns.default_gateway
          ∷ quoted "interface" ns.interface
          ∷ "}"
          ∷ ","
          ∷ []);
      default_interface = s.default_interface || ns.name == ovn4nfv_default_nw;
    })

-- One round of the loop, on the decoded interface.
unfoldable pub add_interface : Pod → Bool → PortState → NetInterface → M PortState
add_interface pod is_extra s ns = do
  ensure_switch ns.name is_extra
  if is_blank ns.interface && not (ns.name == ovn4nfv_default_nw)
      then raise (message "Interface name must be provided")
      else pure tt
  out ←
      add_logical_port_with_switch pod ns.name ns.ip_address ns.mac_address ns.gw_ip_address
        (interface_port pod ns)
  push_annotation s (named_interface ns) out

-- The loop over the networks; `none` is a map that does not decode.
unfoldable pub add_interfaces : Pod → Bool → List (Option NetFields) → PortState → M PortState
add_interfaces pod is_extra [] s = pure s
add_interfaces pod is_extra (none ∷ rest) s = raise (message "mapstruct error")
add_interfaces pod is_extra (some f ∷ rest) s = do
  s' ← add_interface pod is_extra s (decode f s.ns)
  add_interfaces pod is_extra rest s'

unfoldable pub add_default_interface : Pod → PortState → M PortState
add_default_interface pod s = do
  out ←
      add_logical_port_with_switch pod ovn4nfv_default_nw "" "" ""
        (sprint (pod.namespace ∷ "_" ∷ pod.name ∷ []))
  if is_blank out
      then raise (message "")
      else pure (record s {
        ovn_string =
            sprint (s.ovn_string ∷ drop_last out ∷ quoted "interface" "*" ∷ "}" ∷ "," ∷ []);
      })

unfoldable pub port_value_steps : Pod → List (Option NetFields) → Bool → M String
port_value_steps pod nets is_extra = do
  s ←
      add_interfaces pod is_extra nets
        (record { ns = blank_interface; ovn_string = "["; default_interface = false })
  s' ← if not s.default_interface && not is_extra then add_default_interface pod s else pure s
  pure (sprint (drop_last s'.ovn_string ∷ "]" ∷ []))

abbrev pub ovn4nfv_annotation_tag : String
ovn4nfv_annotation_tag = "k8s.plugin.opnfv.org/ovnInterfaces"

abbrev key_and_value : Result String → String × String
key_and_value (ok value) = (ovn4nfv_annotation_tag, value)
key_and_value (err e) = ("", "")

-- AddLogicalPorts: the annotation's key and value, both blank after an early return
unfoldable pub add_logical_ports : Pod → List (Option NetFields) → Bool → M (String × String)
add_logical_ports pod nets is_extra =
    if pod.host_network || not is_extra && is_some (lookup ovn4nfv_annotation_tag pod.annotations)
    then pure ("", "")
    else (try (port_value_steps pod nets is_extra) >>= λ r. pure (key_and_value r))
