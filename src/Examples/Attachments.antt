-- ===== src/Examples/Attachments.antt =====
-- The theorems on the interfaces of a pod at concrete networks.
use icn_nodus.Common.{length, ◌≤◌, String, ◌≡◌, refl, none, some, List, [], ◌∷◌, arith}
use icn_nodus.Effect.{Env, World, done, pure, effects}
use icn_nodus.Effect.Inverse.{done-eq-done}
use icn_nodus.Cni.{
  OvnNetwork, CniRequest, CniResult, Attachment, CniClients, decide, merge_with_result,
  generate_ip_configs, choose, attach_net, attach_nets, add_multiple_interfaces,
}
use icn_nodus.Cni.Attached.{AttachedRun, add_multiple_interfaces-AttachedRun}
use icn_nodus.Examples.{fresh}
use icn_nodus.Examples.Chains.{chained}

abbrev cluster_net : OvnNetwork
cluster_net = record {
  ip_address = "10.0.0.5/24" ∷ [];
  mac_address = "0a:58:0a:00:00:05";
  gateway_ip = "10.0.0.1" ∷ [];
  default_gateway = "";
  interface = "*";
}

abbrev left_net : OvnNetwork
left_net = record cluster_net { default_gateway = "true"; interface = "net0" }

abbrev two_nets : CniClients
two_nets = record {
  ovn_networks = λ s. some (cluster_net ∷ left_net ∷ []);
  nfn_interfaces = λ s. none;
  configure = λ req a. pure ("host" ∷ a.net.interface ∷ []);
}

abbrev for_web : CniRequest
for_web = record {
  sandbox_id = "7f1e";
  netns = "/proc/42/ns/net";
  if_name = "eth0";
  nfn_network = none;
}

abbrev attached_result : CniResult
attached_result = record {
  interfaces = "host" ∷ "*" ∷ "host" ∷ "net0" ∷ [];
  ips =
      record { interface = 1; address = "10.0.0.5/24"; gateway = "10.0.0.1" }
      ∷ record { interface = 3; address = "10.0.0.5/24"; gateway = "10.0.0.1" }
      ∷ [];
  routes = "10.0.0.1" ∷ "10.0.0.1" ∷ [];
}

attaching_run :
    add_multiple_interfaces two_nets for_web "default" "web" "" "[..]" chained fresh
    ≡ done (some attached_result) fresh
unfolding add_multiple_interfaces attach_nets attach_net choose decide merge_with_result
    generate_ip_configs effects
attaching_run = refl

two_made :
    (a : Attachment) (env : Env) (w v : World) (l : List String)
    → two_nets.configure for_web a env w ≡ done l v
    → 2 ≤ length l
unfolding pure
two_made a env w v l h = rw (← (done-eq-done h).0) omega arith

add_multiple_interfaces-AttachedRun_example :
    AttachedRun two_nets for_web "default" "web" "" "[..]" chained fresh fresh attached_result
add_multiple_interfaces-AttachedRun_example =
    add_multiple_interfaces-AttachedRun two_nets for_web "default" "web" two_made "" "[..]" chained
      fresh fresh attached_result attaching_run
