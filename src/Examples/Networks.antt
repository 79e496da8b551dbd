-- ===== src/Examples/Networks.antt =====
-- The theorems on networks, ports and commands at concrete data.
use icn_nodus.Common.{
  sprint, split, contains, trim_space, itoa, hex_byte, All, ℕ, zero, suc, ◌+◌, ◌<◌, String, ◌≡◌,
  refl, inl, true, none, some, List, [], ◌∷◌, arith,
}
use icn_nodus.Api.{Network, Labels, lookup, insert}
use icn_nodus.Effect.{external, ok, Output, nbctl, Env, World, done, effects}
use icn_nodus.Effect.Emits.{world_of}
use icn_nodus.Effect.Inverse.{Issued}
use icn_nodus.Effect.Sequence.{issue}
use icn_nodus.Ovn.Exec.{ovs_command_timeout, run_ovn_retry, nbctl_reply, run_ovn_nbctl}
use icn_nodus.Ovn.Exec.Retry.{IsRefused, run_ovn_retry-IsLast}
use icn_nodus.Ovn.Switch.{
  set_bytes, ip_to_int, next_ip, generate_mac, get_cidr_and_gateway_ip_mask,
  get_ovn_ls_other_config, join_gateways, get_ovn_ls_external_ids, create_ls_args, create_new_ls,
  create_ovn_ls,
}
use icn_nodus.Ovn.Switch.NextIp.{Follows, mapped_v4, written, next_ip-Follows}
use icn_nodus.Ovn.Network.{create_one_network}
use icn_nodus.Ovn.Network.Creation.{router_port_call, switch_port_call, create_one_network-connects}
use icn_nodus.Ovn.Gateway.{parse_gateways, gateway_text, get_gateway_from_switch}
use icn_nodus.Ovn.Gateway.Cache.{get_gateway_from_switch-cached}
use icn_nodus.Ovn.Gateway.Addresses.{Gateway, parse_gateways-join_gateways}
use icn_nodus.Ovn.Removal.{list_ports_args, delete_logical_ports}
use icn_nodus.Ovn.Removal.Deleting.{deletions, delete_logical_ports-run}
use icn_nodus.Ovn.Bridge.{parse_mapping, mapping_text}
use icn_nodus.Ovn.Bridge.Mapping.{IsPlainLabel, AreNew, parse_mapping-mapping_text}
use icn_nodus.Examples.{printing, fresh}

abbrev two_ports : Env
two_ports = printing "default_web default_db"

delete_logical_ports-run_example :
    delete_logical_ports "web" "default" two_ports fresh
    ≡ done tt (record fresh {
      trace =
          issue
            (deletions
              (sprint ("default" ∷ "_" ∷ "web" ∷ []))
              (nbctl_reply two_ports [] ovs_command_timeout list_ports_args))
            (nbctl list_ports_args ∷ []);
    })
delete_logical_ports-run_example = delete_logical_ports-run "web" "default" two_ports fresh

abbrev blue : Network
blue = record {
  name = "blue";
  deleting = true;
  finalizers = [];
  cni_type = "ovn4nfv";
  ipv4_subnets = [];
  ipv6_subnets = [];
  state = "Created";
}

-- An environment in which texts parse as a prefix.
abbrev parsing : Env
parsing = record (printing "") {
  parse_cidr = λ s. some (record {
    network = "10.2.0.0/16";
    base = "10.2.0.0";
    bytes = 10 ∷ 2 ∷ 0 ∷ 0 ∷ [];
    ones = 16;
    address = "10.2.0.1";
  });
}

abbrev connected : World
connected =
    world_of (create_one_network "blue" "10.2.0.0/16" "10.2.0.1/16" "" "rtos-blue" parsing fresh)

connects :
    create_one_network "blue" "10.2.0.0/16" "10.2.0.1/16" "" "rtos-blue" parsing fresh
    ≡ done tt connected
unfolding create_one_network create_ovn_ls create_new_ls create_ls_args get_ovn_ls_other_config
    get_ovn_ls_external_ids get_cidr_and_gateway_ip_mask generate_mac run_ovn_nbctl nbctl_reply
    effects hex_byte itoa contains
connects = refl

create_one_network-connects_example :
    (mac : String) × (masks : String × String) × (u : World) × (create_ovn_ls "blue" "10.2.0.0/16"
        "10.2.0.1/16" "" "" "" parsing fresh
      ≡ done masks u)
    × Issued (router_port_call "rtos-blue" mac masks.0) connected.trace
    × Issued (switch_port_call "blue" "rtos-blue" mac) connected.trace
create_one_network-connects_example =
    create_one_network-connects "blue" "10.2.0.0/16" "10.2.0.1/16" "" "rtos-blue" parsing fresh
      connected connects

abbrev gateway_env : Env
gateway_env = printing "10.2.0.1/16"

abbrev asked : World
asked = world_of (get_gateway_from_switch "blue" gateway_env fresh)

first_answer :
    get_gateway_from_switch "blue" gateway_env fresh ≡ done ("10.2.0.1" ∷ [], "16" ∷ []) asked
unfolding get_gateway_from_switch gateway_text parse_gateways lookup insert run_ovn_nbctl
    nbctl_reply split effects contains itoa
first_answer = refl

get_gateway_from_switch-cached_example :
    get_gateway_from_switch "blue" gateway_env asked ≡ done ("10.2.0.1" ∷ [], "16" ∷ []) asked
get_gateway_from_switch-cached_example =
    get_gateway_from_switch-cached "blue" gateway_env fresh asked asked ("10.2.0.1" ∷ [], "16" ∷ [])
      first_answer refl

abbrev gateway4 : Gateway
gateway4 = record {
  ip = "10.2.0.1";
  mask = "16";
  ip_comma = (refl, (refl, (refl, (refl, (refl, (refl, (refl, (refl, tt))))))));
  ip_slash = (refl, (refl, (refl, (refl, (refl, (refl, (refl, (refl, tt))))))));
  mask_comma = (refl, (refl, tt));
  mask_slash = (refl, (refl, tt));
}

abbrev gateway6 : Gateway
gateway6 = record {
  ip = "fd00::1";
  mask = "64";
  ip_comma = (refl, (refl, (refl, (refl, (refl, (refl, (refl, tt)))))));
  ip_slash = (refl, (refl, (refl, (refl, (refl, (refl, (refl, tt)))))));
  mask_comma = (refl, (refl, tt));
  mask_slash = (refl, (refl, tt));
}

parse_gateways-join_gateways_example :
    parse_gateways (split b',' (join_gateways "10.2.0.1/16" "fd00::1/64"))
    ≡ ok ("10.2.0.1" ∷ "fd00::1" ∷ [], "16" ∷ "64" ∷ [])
parse_gateways-join_gateways_example =
    parse_gateways-join_gateways (some gateway4) (some gateway6) (λ e. cc)

-- The connection is refused once, and then accepted.
abbrev second_time : ℕ → Output
second_time zero = record {
  stdout = "";
  stderr = "Connection refused";
  error = some (external "exit status 1");
}
second_time (suc k) = record { stdout = "ok"; stderr = ""; error = none }

refused : (i : ℕ) → i < 1 → IsRefused (second_time (0 + i))
unfolding contains
refused zero h = (λ e. cc, refl)
refused (suc i) h = absurd (omega arith)

run_ovn_retry-IsLast_example : run_ovn_retry second_time 200 0 ≡ second_time 1
run_ovn_retry-IsLast_example =
    run_ovn_retry-IsLast second_time 200 0 1 (omega arith) refused (inl (inl refl))

-- 10.0.0.255, mapped into 16 bytes
abbrev last_of_subnet : List ℕ
last_of_subnet = 10 ∷ 0 ∷ 0 ∷ 255 ∷ []

next_ip-Follows_example :
    Follows 3 (written mapped_v4 last_of_subnet) (next_ip (written mapped_v4 last_of_subnet))
    × (ip_to_int (written mapped_v4 last_of_subnet) ≡ set_bytes 0 last_of_subnet)
next_ip-Follows_example =
    next_ip-Follows mapped_v4 10 (0 ∷ 0 ∷ 255 ∷ []) (omega arith)
      (omega arith, (omega arith, (omega arith, (omega arith, tt)))) refl (omega arith)

abbrev mapping : Labels
mapping = ("nw1", "br1") ∷ ("nw2", "br2") ∷ []

mapping-IsPlainLabel : All IsPlainLabel mapping
unfolding trim_space
mapping-IsPlainLabel = (
  (
    ((refl, (refl, (refl, tt))), (refl, (refl, (refl, tt))), refl),
    ((refl, (refl, (refl, tt))), (refl, (refl, (refl, tt))), refl),
  ),
  (
    (
      ((refl, (refl, (refl, tt))), (refl, (refl, (refl, tt))), refl),
      ((refl, (refl, (refl, tt))), (refl, (refl, (refl, tt))), refl),
    ),
    tt,
  ),
)

mapping-AreNew : AreNew [] mapping
unfolding lookup
mapping-AreNew = (refl, (refl, tt))

parse_mapping-mapping_text_example : parse_mapping (mapping_text mapping) ≡ some mapping
parse_mapping-mapping_text_example =
    parse_mapping-mapping_text mapping mapping-IsPlainLabel mapping-AreNew
