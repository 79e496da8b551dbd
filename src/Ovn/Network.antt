-- ===== src/Ovn/Network.antt =====
-- internal/pkg/ovn/ovn.go: networks and provider networks as logical switches and router ports.
pub mod Deletion
pub mod Creation
pub mod Commands
use Prim.Native.String
use icn_nodus.Common.{
  if◌then◌else◌, is_some, sprint, is_blank, String, Bool, true, false, not, ◌&&◌, Option, none,
  some, List, [], ◌∷◌, ◌==◌,
}
use icn_nodus.Api.{IpSubnet, Network}
use icn_nodus.Effect.{Error, message, external, done, M, ◌>>=◌, ◌>>◌, pure, raise, attempt, ask}
use icn_nodus.Ovn.Exec.{run_ovn_nbctl, must}
use icn_nodus.Ovn.Switch.{generate_mac, create_ovn_ls, setup_distributed_router}

abbrev pub ovn4nfv_router_name : String
ovn4nfv_router_name = "ovn4nfv-master"

abbrev pub ovn4nfv_default_nw : String
ovn4nfv_default_nw = "ovn4nfvk8s-default-nw"

pub record OvnNetworkConf : Type 0 where
  pub subnetv4 : String
  pub gateway_ipv4 : String
  pub exclude_ips : String
  pub subnetv6 : String
  pub gateway_ipv6 : String

unfoldable pub get_ovn_net_conf : M OvnNetworkConf
get_ovn_net_conf = do
  conf ← ask (λ env _. record {
    subnetv4 = env.getenv "OVN_SUBNET";
    gateway_ipv4 = env.getenv "OVN_GATEWAYIP";
    exclude_ips = env.getenv "OVN_EXCLUDEIPS";
    subnetv6 = env.getenv "OVN_SUBNET_V6";
    gateway_ipv6 = env.getenv "OVN_GATEWAYIP_V6";
  })
  if is_blank conf.subnetv4 && is_blank conf.subnetv6
      then raise (message "OVN subnet is not set in nfn-operator configmap env")
      else pure conf

-- The error of an existing switch is no error here.
abbrev pub is_ls_exists : Error → Bool
is_ls_exists (message s) = s == "LS exists"
is_ls_exists (external s) = false

abbrev tolerate : Option Error → M (Unit {0})
tolerate none = pure tt
tolerate (some e) = if is_ls_exists e then pure tt else raise e

-- SetupOvnUtils
unfoldable pub setup_ovn_utils : OvnNetworkConf → M (Unit {0})
setup_ovn_utils conf = do
  setup_distributed_router ovn4nfv_router_name
  e ← attempt (
      create_ovn_ls ovn4nfv_default_nw conf.subnetv4 conf.gateway_ipv4 conf.exclude_ips
        conf.subnetv6 conf.gateway_ipv6)
  tolerate e

abbrev pub new_controller : M (Unit {0})
new_controller env w = done tt (record w { gateway_cache = []; controller = true })

-- NewOvnController behind the look-up of the executables; the new controller's cache is empty.
unfoldable pub new_ovn_controller : M (Unit {0})
new_ovn_controller = do conf ← get_ovn_net_conf; setup_ovn_utils conf; new_controller

abbrev pub has_controller : M Bool
has_controller env w = done w.controller w

-- GetOvnController
unfoldable pub get_ovn_controller : M (Unit {0})
get_ovn_controller = do
  there ← has_controller
  if there then pure tt else raise (message "OVN Controller not initialized")

unfoldable pub get_ipv4_logical_switch_name : String → String
get_ipv4_logical_switch_name name = name

unfoldable pub get_ipv6_logical_switch_name : String → String
get_ipv6_logical_switch_name name = sprint (name ∷ "v6" ∷ [])

unfoldable pub get_ipv4_logical_router_port_name : String → String
get_ipv4_logical_router_port_name name = sprint ("rtos-" ∷ name ∷ [])

unfoldable pub get_ipv6_logical_router_port_name : String → String
get_ipv6_logical_router_port_name name = sprint ("rtosv6-" ∷ name ∷ [])

-- createNetwork: the switch, its router port, and the port that connects them.
unfoldable pub create_one_network : String → String → String → String → String → M (Unit {0})
create_one_network name subnet gateway exclude_ips router_port = do
  masks ← create_ovn_ls name subnet gateway exclude_ips "" ""
  found ←
      must (run_ovn_nbctl ("--if-exist" ∷ "get" ∷ "logical_router_port" ∷ router_port ∷ "mac" ∷ []))
  router_mac ← if is_blank found then generate_mac else pure found
  _ ← must (
      run_ovn_nbctl (
        "--wait=hv" ∷ "--may-exist" ∷ "lrp-add" ∷ ovn4nfv_router_name ∷ router_port ∷ router_mac
        ∷ masks.0 ∷ []))
  let switch_port = sprint ("stor-" ∷ name ∷ [])
  _ ← must (
      run_ovn_nbctl (
        "--wait=hv"
        ∷ "--"
        ∷ "--may-exist"
        ∷ "lsp-add"
        ∷ name
        ∷ switch_port
        ∷ "--"
        ∷ "set"
        ∷ "logical_switch_port"
        ∷ switch_port
        ∷ "type=router"
        ∷ sprint ("options:router-port=" ∷ router_port ∷ [])
        ∷ sprint ("addresses=\"" ∷ router_mac ∷ "\"" ∷ [])
        ∷ []))
  pure tt

-- The first subnet, if there is one.
abbrev pub first_subnet : List IpSubnet → (IpSubnet → M (Unit {0})) → M (Unit {0})
first_subnet [] f = pure tt
first_subnet (s ∷ rest) f = f s

-- CreateNetwork of the controller
unfoldable pub create_network_ls : Network → M (Unit {0})
create_network_ls cr = do
  first_subnet cr.ipv4_subnets (λ s.
      create_one_network (get_ipv4_logical_switch_name cr.name) s.subnet s.gateway s.exclude_ips
        (get_ipv4_logical_router_port_name cr.name))
  first_subnet cr.ipv6_subnets (λ s.
      create_one_network (get_ipv6_logical_switch_name cr.name) s.subnet s.gateway s.exclude_ips
        (get_ipv6_logical_router_port_name cr.name))

unfoldable pub delete_logical_switch : String → M (Unit {0})
delete_logical_switch name = do
  _ ← must (run_ovn_nbctl ("--if-exist" ∷ "--wait=hv" ∷ "ls-del" ∷ name ∷ []))
  pure tt

unfoldable pub delete_logical_router_port : String → M (Unit {0})
delete_logical_router_port name = do
  _ ← must (run_ovn_nbctl ("--if-exist" ∷ "--wait=hv" ∷ "lrp-del" ∷ name ∷ []))
  pure tt

-- DeleteNetwork of the controller
unfoldable pub delete_network_ls : Network → M (Unit {0})
delete_network_ls cr = do
  delete_logical_router_port (get_ipv4_logical_router_port_name cr.name)
  delete_logical_router_port (get_ipv6_logical_router_port_name cr.name)
  delete_logical_switch (get_ipv4_logical_switch_name cr.name)
  delete_logical_switch (get_ipv6_logical_switch_name cr.name)

-- createProviderNetwork: the switch, and its port to the local network.
unfoldable pub create_one_provider_network : String → String → String → String → M (Unit {0})
create_one_provider_network name subnet gateway exclude_ips = do
  _ ← create_ovn_ls name subnet gateway exclude_ips "" ""
  let port = sprint ("server-localnet_" ∷ name ∷ [])
  _ ← must (
      run_ovn_nbctl (
        "--wait=hv"
        ∷ "--"
        ∷ "--may-exist"
        ∷ "lsp-add"
        ∷ name
        ∷ port
        ∷ "--"
        ∷ "lsp-set-addresses"
        ∷ port
        ∷ "unknown"
        ∷ "--"
        ∷ "lsp-set-type"
        ∷ port
        ∷ "localnet"
        ∷ "--"
        ∷ "lsp-set-options"
        ∷ port
        ∷ sprint ("network_name=nw_" ∷ name ∷ [])
        ∷ []))
  pure tt

-- CreateProviderNetwork, given the resource's name and subnets
unfoldable pub create_provider_network : String → List IpSubnet → List IpSubnet → M (Unit {0})
create_provider_network name ipv4_subnets ipv6_subnets = do
  first_subnet ipv4_subnets (λ s.
      create_one_provider_network (get_ipv4_logical_switch_name name) s.subnet s.gateway
        s.exclude_ips)
  first_subnet ipv6_subnets (λ s.
      create_one_provider_network (get_ipv6_logical_switch_name name) s.subnet s.gateway
        s.exclude_ips)

-- DeleteProviderNetwork, given the resource's name
unfoldable pub delete_provider_network : String → M (Unit {0})
delete_provider_network name = do
  delete_logical_switch (get_ipv4_logical_switch_name name)
  delete_logical_switch (get_ipv6_logical_switch_name name)

-- FindLogicalSwitch
unfoldable pub find_logical_switch : String → M Bool
find_logical_switch name = do
  out ← run_ovn_nbctl (
      "--data=bare"
      ∷ "--no-heading"
      ∷ "--columns=name"
      ∷ "find"
      ∷ "logical_switch"
      ∷ sprint ("name=" ∷ name ∷ [])
      ∷ [])
  pure (not (is_some out.error) && name == out.stdout)
