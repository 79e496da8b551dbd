-- ===== src/Policy.antt =====
-- pkg/controller/networkpolicy/networkpolicy_controller.go: the policies, and the texts of the
-- match expressions that are built from them. `Acls` has the rules, `Handlers` the events.
pub mod Acls
pub mod Handlers
pub mod Expr
pub mod Deny
pub mod Ports
pub mod RuleExpr
pub mod PeerExpr
pub mod Emitted
pub mod Updating
use Prim.Native.String
use icn_nodus.Common.{
  if◌then◌else◌, sprint, is_blank, contains, itoa, ℕ, String, Option, none, some, List, [], ◌∷◌,
  ◌++◌,
}
use icn_nodus.Api.{Labels, Pod}
use icn_nodus.Effect.{M, ◌>>=◌, ◌>>◌, pure, panic}
use icn_nodus.Ovn.Acl.{PolicyDirection, ingress, egress}

pub data Protocol : Type 0 where
  tcp udp sctp : Protocol

-- intstr.IntOrString: a number, or the name of a container's port
pub data IntOrString : Type 0 where
  int : ℕ → IntOrString
  named : String → IntOrString

-- Both fields are pointers in Kubernetes' type, so they may be nil.
pub record NetworkPolicyPort : Type 0 where
  pub protocol : Option Protocol
  pub port : Option IntOrString

pub record IpBlock : Type 0 where
  pub cidr : String
  pub except : List String

pub record NetworkPolicyPeer : Type 0 where
  pub ip_block : Option IpBlock
  pub namespace_selector : Option Labels
  pub pod_selector : Option Labels

-- NetworkPolicyIngressRule and NetworkPolicyEgressRule: `peers` is `From` in one, `To` in the other.
pub record PolicyRule : Type 0 where
  pub ports : List NetworkPolicyPort
  pub peers : List NetworkPolicyPeer

pub record NetworkPolicy : Type 0 where
  pub name : String
  pub namespace : String
  pub pod_selector : Labels
  pub policy_types : List String
  pub ingress_rules : List PolicyRule
  pub egress_rules : List PolicyRule

pub record XgressRule : Type 0 where
  pub ports : List NetworkPolicyPort
  pub peer : List NetworkPolicyPeer
  pub direction : PolicyDirection

unfoldable pub from_ingress : List PolicyRule → List XgressRule
from_ingress [] = []
from_ingress (rule ∷ rules) =
    record { ports = rule.ports; peer = rule.peers; direction = ingress } ∷ from_ingress rules

unfoldable pub from_egress : List PolicyRule → List XgressRule
from_egress [] = []
from_egress (rule ∷ rules) =
    record { ports = rule.ports; peer = rule.peers; direction = egress } ∷ from_egress rules

unfoldable pub get_port_name : Pod → String
get_port_name pod = sprint (pod.namespace ∷ "_" ∷ pod.name ∷ [])

unfoldable pub get_ports : List Pod → List String
get_ports [] = []
get_ports (pod ∷ pods) = get_port_name pod ∷ get_ports pods

unfoldable pub get_ips : List Pod → List String
get_ips [] = []
get_ips (pod ∷ pods) = pod.pod_ip ∷ get_ips pods

unfoldable pub concatenate : String → String → String → String
concatenate a b operand = sprint (a ∷ " " ∷ operand ∷ " " ∷ b ∷ [])

unfoldable pub add_braces : String → String
add_braces a = sprint ("(" ∷ a ∷ ")" ∷ [])

unfoldable pub get_ip_version : String → String
get_ip_version ip = if contains ip "." then "ip4" else "ip6"

pub record PolicyPorts : Type 0 where
  pub tcp_ports : List ℕ
  pub udp_ports : List ℕ
  pub sctp_ports : List ℕ

abbrev pub no_ports : PolicyPorts
no_ports = record { tcp_ports = []; udp_ports = []; sctp_ports = [] }

unfoldable pub add_port : Protocol → ℕ → PolicyPorts → PolicyPorts
add_port udp n ports = record ports { udp_ports = ports.udp_ports ++ n ∷ [] }
add_port sctp n ports = record ports { sctp_ports = ports.sctp_ports ++ n ∷ [] }
add_port tcp n ports = record ports { tcp_ports = ports.tcp_ports ++ n ∷ [] }

-- One round of the loop of `getNetworkPorts`; a nil pointer that is followed panics.
unfoldable pub take_port : Option IntOrString → Option Protocol → PolicyPorts → M PolicyPorts
take_port none protocol ports = panic
take_port (some (named s)) protocol ports = pure ports
take_port (some (int n)) none ports = panic
take_port (some (int n)) (some p) ports = pure (add_port p n ports)

unfoldable pub collect_ports : List NetworkPolicyPort → PolicyPorts → M PolicyPorts
collect_ports [] ports = pure ports
collect_ports (p ∷ ps) ports = do
  ports' ← take_port p.port p.protocol ports
  collect_ports ps ports'

unfoldable pub get_network_ports : List NetworkPolicyPort → M PolicyPorts
get_network_ports ps = collect_ports ps no_ports

unfoldable pub protocol_to_string : Protocol → String
protocol_to_string udp = "udp"
protocol_to_string sctp = "sctp"
protocol_to_string tcp = "tcp"

unfoldable pub port_test : String → String → ℕ → String
port_test protocol direction port = sprint (protocol ∷ "." ∷ direction ∷ " == " ∷ itoa port ∷ [])

unfoldable pub ports_match_from : String → String → String → List ℕ → String
unfolding concatenate
ports_match_from protocol direction match [] = match
ports_match_from protocol direction match (port ∷ ports) =
    ports_match_from protocol direction (concatenate match (port_test protocol direction port) "||")
      ports

unfoldable pub get_ports_match : List ℕ → String → String → String
unfolding ports_match_from
get_ports_match [] protocol direction = ""
get_ports_match (port ∷ ports) protocol direction =
    ports_match_from protocol direction (port_test protocol direction port) ports

-- The rules of `createPortsMatch`. For SCTP the code puts braces round the text of the UDP ports.
unfoldable pub port_rules : PolicyPorts → String → List String
unfolding get_ports_match
port_rules ports direction =
    let tcp_match = get_ports_match ports.tcp_ports "tcp" direction in
    let udp_match = get_ports_match ports.udp_ports "udp" direction in
    let udp_rule = if is_blank udp_match then udp_match else add_braces udp_match in
    let sctp_match = get_ports_match ports.sctp_ports "sctp" direction in
    (if is_blank tcp_match then [] else add_braces tcp_match ∷ [])
    ++ (if is_blank udp_match then [] else udp_rule ∷ [])
    ++ (if is_blank sctp_match then [] else add_braces udp_rule ∷ [])

unfoldable pub join_rules : String → List String → String
join_rules match [] = match
join_rules match (rule ∷ rules) = join_rules (sprint (match ∷ " || " ∷ rule ∷ [])) rules

abbrev pub join_all_rules : List String → String
join_all_rules [] = ""
join_all_rules (rule ∷ rules) = join_rules rule rules

unfoldable pub create_ports_match : PolicyPorts → String → String
unfolding port_rules join_rules
create_ports_match ports direction = add_braces (join_all_rules (port_rules ports direction))

unfoldable pub except_matches : String → String → List String → String
unfolding concatenate
except_matches tag match [] = match
except_matches tag match (exception ∷ rest) =
    except_matches tag (concatenate match (concatenate tag exception "!=") "&&") rest

unfoldable pub create_ip_block_match : IpBlock → String → String
unfolding except_matches
create_ip_block_match block direction =
    let tag = sprint (get_ip_version block.cidr ∷ "." ∷ direction ∷ []) in
    add_braces (except_matches tag (concatenate tag block.cidr "==") block.except)

abbrev pub acl_side : PolicyDirection → String
acl_side ingress = ".src"
acl_side _ = ".dst"

unfoldable pub ip_test : PolicyDirection → String → String → String
ip_test direction comparator ip =
    concatenate (sprint (get_ip_version ip ∷ acl_side direction ∷ [])) ip comparator

unfoldable pub ip_tests_from : PolicyDirection → String → String → String → List String → String
unfolding concatenate
ip_tests_from direction comparator operand acl [] = acl
ip_tests_from direction comparator operand acl (ip ∷ ips) =
    ip_tests_from direction comparator operand
      (concatenate acl (ip_test direction comparator ip) operand) ips

unfoldable pub ip_slice_to_acl : List String → PolicyDirection → String → String → String
unfolding ip_tests_from
ip_slice_to_acl [] direction comparator operand = ""
ip_slice_to_acl (ip ∷ ips) direction comparator operand =
    ip_tests_from direction comparator operand (ip_test direction comparator ip) ips
