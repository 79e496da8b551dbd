-- ===== src/Ovn/Network/Creation.antt =====
-- What createNetwork of internal/pkg/ovn/ovn.go and createOvnLS of internal/pkg/ovn/common.go have done
-- when they return.
use icn_nodus.Common.{
  if◌then◌else◌, sprint, is_blank, String, ◌≡◌, refl, ◌⊎◌, inl, inr, Bool, true, false, not, ◌&&◌,
  none, [], ◌∷◌,
}
use icn_nodus.Effect.{Event, nbctl, Env, World, done, crash, effects}
use icn_nodus.Effect.Emits.{Any, Emits-pure, Emits-bind}
use icn_nodus.Effect.Inverse.{>>=-eq-done, Issued, Issued-Emits}
use icn_nodus.Ovn.Exec.Calls.{run_ovn_nbctl-Emits, must-Emits, must-Issued}
use icn_nodus.Ovn.Switch.{
  get_cidr_and_gateway_ip_mask, get_ovn_ls_other_config, create_ls_args, both_given, create_new_ls,
  create_ovn_ls,
}
use icn_nodus.Ovn.Network.{create_one_network}

-- The port of the router in the network, with its MAC address and its address in the network.
abbrev pub router_port_call : String → String → String → Event
router_port_call router_port mac mask =
    nbctl
      ("--wait=hv" ∷ "--may-exist" ∷ "lrp-add" ∷ "ovn4nfv-master" ∷ router_port ∷ mac ∷ mask ∷ [])

-- The port of the network's switch to that port of the router.
abbrev pub switch_port_call : String → String → String → Event
switch_port_call name router_port mac =
    let port = sprint ("stor-" ∷ name ∷ []) in
    nbctl (
      "--wait=hv"
      ∷ "--"
      ∷ "--may-exist"
      ∷ "lsp-add"
      ∷ name
      ∷ port
      ∷ "--"
      ∷ "set"
      ∷ "logical_switch_port"
      ∷ port
      ∷ "type=router"
      ∷ sprint ("options:router-port=" ∷ router_port ∷ [])
      ∷ sprint ("addresses=\"" ∷ mac ∷ "\"" ∷ [])
      ∷ [])

-- A created network is connected to the cluster's router: when createNetwork returns without an error,
-- ovn-nbctl was given the command that adds a port to the router with the gateway's address that
-- createOvnLS returned, and the command that adds a port of the switch to it with the same MAC address.
pub create_one_network-connects :
    (name subnet gateway exclude_ips router_port : String) (env : Env) (w v : World)
    → create_one_network name subnet gateway exclude_ips router_port env w ≡ done tt v
    → (mac : String) × (masks : String × String) × (u : World) × (create_ovn_ls name subnet gateway
          exclude_ips "" "" env w
        ≡ done masks u)
      × Issued (router_port_call router_port mac masks.0) v.trace
      × Issued (switch_port_call name router_port mac) v.trace
unfolding create_one_network
create_one_network-connects name subnet gateway exclude_ips router_port env w v h =
    let (masks, w1, p1, q1) = >>=-eq-done _ _ env w tt v h in
    let (found, w2, p2, q2) = >>=-eq-done _ _ env w1 tt v q1 in
    let (mac, w3, p3, q3) = >>=-eq-done _ _ env w2 tt v q2 in
    let (s4, w4, p4, q4) = >>=-eq-done _ _ env w3 tt v q3 in
    let (s5, w5, p5, q5) = >>=-eq-done _ _ env w4 tt v q4 in
    (
      mac,
      masks,
      w1,
      p1,
      Issued-Emits {P = Any} _ _ env w4 v tt
          (Emits-bind _ _ (must-Emits _ (run_ovn_nbctl-Emits _ tt)) (λ _. Emits-pure tt)) q4
          (must-Issued _ env w3 w4 s4 p4),
      Issued-Emits {P = Any} _ _ env w5 v tt (Emits-pure tt) q5 (must-Issued _ env w4 w5 s5 p5),
    )

-- A subnet that the switch is not configured with: it or its gateway is blank, or it does not parse.
abbrev pub IsUnset : Env → String → String → Type 0
IsUnset env subnet gateway =
    (is_blank subnet ≡ true) ⊎ (is_blank gateway ≡ true) ⊎ (env.parse_cidr subnet ≡ none)

both_given-none :
    (env : Env) (subnet gateway : String)
    → IsUnset env subnet gateway
    → (both_given env subnet gateway).0 ≡ none
unfolding get_cidr_and_gateway_ip_mask
both_given-none env subnet gateway (inl h) = rw (h) refl
both_given-none env subnet gateway (inr (inl h)) = at (is_blank subnet)
  where
    at :
        (b : Bool)
        → (if not b && not (is_blank gateway)
            then get_cidr_and_gateway_ip_mask env subnet gateway
            else (none, "")).0
          ≡ none
    at true = refl
    at false = rw (h) refl
both_given-none env subnet gateway (inr (inr h)) =
    at (not (is_blank subnet) && not (is_blank gateway))
  where
    at :
        (b : Bool)
        → (if b then get_cidr_and_gateway_ip_mask env subnet gateway else (none, "")).0 ≡ none
    at true = rw (h) refl
    at false = refl

-- A switch can only be created with a subnet and a gateway: where each family's subnet or gateway is
-- blank, or the subnet does not parse, the creation crashes before it gives a command.
pub create_new_ls-crash :
    (name subnetv4 gateway_ipv4 exclude_ips subnetv6 gateway_ipv6 : String) (env : Env) (w : World)
    → IsUnset env subnetv4 gateway_ipv4
    → IsUnset env subnetv6 gateway_ipv6
    → create_new_ls name subnetv4 gateway_ipv4 exclude_ips subnetv6 gateway_ipv6 env w ≡ crash w
unfolding create_new_ls get_ovn_ls_other_config create_ls_args effects
create_new_ls-crash name subnetv4 gateway_ipv4 exclude_ips subnetv6 gateway_ipv6 env w h k =
    rw (both_given-none env subnetv4 gateway_ipv4 h, both_given-none env subnetv6 gateway_ipv6 k)
      refl
