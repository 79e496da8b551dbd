-- ===== src/Ovn/Network/Commands.antt =====
-- The calls with which internal/pkg/ovn/ovn.go creates networks.
use icn_nodus.Common.{String, ◌≡◌, refl, true, List, [], ◌∷◌}
use icn_nodus.Api.{IpSubnet, Network}
use icn_nodus.Effect.{Event, nbctl, Env, World, M, ◌>>◌, effects}
use icn_nodus.Effect.Emits.{Emits, Extends-refl, Emits-pure, Emits-panic, Emits-bind, emits_rules}
use icn_nodus.Ovn.Exec.{run_ovn_nbctl, must}
use icn_nodus.Ovn.Exec.Calls.{run_ovn_nbctl-Emits, must-Emits}
use icn_nodus.Ovn.Switch.{generate_mac, create_ls_args, create_new_ls, create_ovn_ls}
use icn_nodus.Ovn.Network.{
  get_ovn_controller, create_one_network, first_subnet, create_network_ls,
  create_one_provider_network, create_provider_network,
}

module _ {P : Event → Type 0} (h : (args : List String) → P (nbctl args)) where
  command-Emits : (args : List String) → Emits P (must (run_ovn_nbctl args))
  command-Emits args = must-Emits _ (run_ovn_nbctl-Emits args (h args))

  generate_mac-Emits : Emits P generate_mac
  unfolding generate_mac
  generate_mac-Emits = search emits_rules

  create_ls_args-Emits :
      (name : String) (config : List String) (external_ids exclude_ips : String)
      → Emits P (create_ls_args name config external_ids exclude_ips)
  unfolding create_ls_args
  create_ls_args-Emits name [] external_ids exclude_ips = Emits-panic
  create_ls_args-Emits name (x ∷ rest) external_ids exclude_ips = Emits-pure _

  create_ovn_ls-Emits :
      (name subnetv4 gateway_ipv4 exclude_ips subnetv6 gateway_ipv6 : String)
      → Emits P (create_ovn_ls name subnetv4 gateway_ipv4 exclude_ips subnetv6 gateway_ipv6)
  unfolding create_ovn_ls create_new_ls
  create_ovn_ls-Emits name subnetv4 gateway_ipv4 exclude_ips subnetv6 gateway_ipv6 =
      search (emits_rules, command-Emits, create_ls_args-Emits) depth 12

  create_one_network-Emits :
      (name subnet gateway exclude_ips router_port : String)
      → Emits P (create_one_network name subnet gateway exclude_ips router_port)
  unfolding create_one_network
  create_one_network-Emits name subnet gateway exclude_ips router_port =
      search (emits_rules, command-Emits, create_ovn_ls-Emits, generate_mac-Emits) depth 14

  create_one_provider_network-Emits :
      (name subnet gateway exclude_ips : String)
      → Emits P (create_one_provider_network name subnet gateway exclude_ips)
  unfolding create_one_provider_network
  create_one_provider_network-Emits name subnet gateway exclude_ips =
      search (emits_rules, command-Emits, create_ovn_ls-Emits) depth 8

  first_subnet-Emits :
      (subnets : List IpSubnet) (f : IpSubnet → M (Unit {0}))
      → ((s : IpSubnet) → Emits P (f s))
      → Emits P (first_subnet subnets f)
  first_subnet-Emits [] f k = Emits-pure tt
  first_subnet-Emits (s ∷ rest) f k = k s

  pub create_network_ls-Emits : (cr : Network) → Emits P (create_network_ls cr)
  unfolding create_network_ls
  create_network_ls-Emits cr =
      Emits-bind _ _
        (first_subnet-Emits cr.ipv4_subnets _ (λ s. create_one_network-Emits _ _ _ _ _))
        (λ _. first_subnet-Emits cr.ipv6_subnets _ (λ s. create_one_network-Emits _ _ _ _ _))

  pub create_provider_network-Emits :
      (name : String) (v4 v6 : List IpSubnet) → Emits P (create_provider_network name v4 v6)
  unfolding create_provider_network
  create_provider_network-Emits name v4 v6 =
      Emits-bind _ _ (first_subnet-Emits v4 _ (λ s. create_one_provider_network-Emits _ _ _ _))
        (λ _. first_subnet-Emits v6 _ (λ s. create_one_provider_network-Emits _ _ _ _))

  pub get_ovn_controller-Emits : Emits P get_ovn_controller
  unfolding get_ovn_controller
  get_ovn_controller-Emits =
      Emits-bind _ _ (record { adds = λ env w. Extends-refl w.trace }) (λ there. search emits_rules)

-- The controller is there.
pub given_controller :
    (m : M (Unit {0})) (env : Env) (w : World)
    → w.controller ≡ true
    → (get_ovn_controller >> m) env w ≡ m env w
unfolding get_ovn_controller effects
given_controller m env w h = rw (h) refl
