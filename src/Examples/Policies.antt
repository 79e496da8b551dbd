-- ===== src/Examples/Policies.antt =====
-- The theorems on networkpolicy_controller.go at a policy that lets a block of addresses reach port 80.
use icn_nodus.Common.{
  contains, itoa, String, ◌≡◌, refl, inl, true, ◌&&◌, ◌||◌, none, some, List, [], ◌∷◌, ◌==◌,
}
use icn_nodus.Effect.{Error, message, ok, nbctl, World, Run, done, fail}
use icn_nodus.Effect.Emits.{world_of, Extends}
use icn_nodus.Effect.Inverse.{Issued}
use icn_nodus.Ovn.Acl.{ingress, egress, acl_list}
use icn_nodus.Ovn.PortGroup.{run_groups}
use icn_nodus.Policy.{
  tcp, udp, int, named, NetworkPolicyPort, IpBlock, from_ingress, from_egress, get_ports,
  get_ip_version, no_ports, add_port, get_network_ports, port_test, create_ports_match,
  except_matches, ip_slice_to_acl,
}
use icn_nodus.Policy.Acls.{
  get_port_group_name, start_state, block_match, rule_match, add_acls, run_acls,
}
use icn_nodus.Policy.Handlers.{
  process_policy_rules, kinds_of, policy_pods, set_ports, create_steps, create_policy,
  refresh_network_policies,
}
use icn_nodus.Policy.Deny.{deny_command, HasFewRules, pods_listed, create_policy-denies}
use icn_nodus.Policy.Emitted.{IsAllowing, add_acls-IsAllowing}
use icn_nodus.Policy.Expr.{
  single, Packet, Reads, Means, any_port, tcp_and_udp, create_ports_match-Reads,
}
use icn_nodus.Policy.PeerExpr.{any_ip}
use icn_nodus.Policy.RuleExpr.{block_value, or_true, port_value, rule_match-Means}
use icn_nodus.Policy.Ports.{all_numbered, answer, get_network_ports-answer}
use icn_nodus.Examples.{printing, fresh, sample}
use icn_nodus.Ovn.Exec.{nbctl_reply}

abbrev group : String
group = get_port_group_name (printing "") sample

abbrev created_world : World
created_world = world_of (create_policy sample (printing "") fresh)

-- The group cannot be listed: no line of the listing is a rule.
not_listed :
    acl_list group "" (printing "") (pods_listed sample fresh)
    ≡ fail (message "Unable to parse ACL") (record fresh {
      trace = nbctl ("acl-list" ∷ group ∷ []) ∷ (pods_listed sample fresh).trace;
    })
unfolding run_groups nbctl_reply
not_listed = refl

fail-ne-done :
    {A : Type 0} (r : Run A) (e : Error) (u v : World) (a : A) → r ≡ fail e u → r ≡ done a v → ⊥
fail-ne-done r e u v a h k = cc

few_rules : HasFewRules group (printing "") (pods_listed sample fresh)
few_rules rules v h = absurd (fail-ne-done _ _ _ v rules not_listed h)

created_true : create_policy sample (printing "") fresh ≡ done true created_world
unfolding run_groups nbctl_reply run_acls create_policy create_steps process_policy_rules
    policy_pods set_ports get_ports kinds_of from_ingress from_egress except_matches get_ip_version
    itoa contains add_port port_test
created_true = refl

create_policy-denies_example :
    ((kinds_of sample).0 ≡ true → Issued (deny_command group ingress) created_world.trace)
    × ((kinds_of sample).1 ≡ true → Issued (deny_command group egress) created_world.trace)
create_policy-denies_example =
    create_policy-denies sample (printing "") fresh created_world few_rules created_true

add_acls-IsAllowing_example :
    Extends
      (IsAllowing group)
      fresh.trace
      (world_of (add_acls sample (from_ingress sample.ingress_rules) (printing "") fresh)).trace
add_acls-IsAllowing_example =
    add_acls-IsAllowing sample (from_ingress sample.ingress_rules) (printing "") fresh

-- A TCP packet to port 80 from an address of the block.
abbrev packet : Packet
packet field operator value =
    (field == "tcp.dst" && value == "80") || (field == "ip4.src" && value == "10.1.0.0/16")

abbrev block : IpBlock
block = record { cidr = "10.1.0.0/16"; except = [] }

rule_match-Means_example :
    Means packet
      (rule_match
        (start_state "pg42")
        (ip_slice_to_acl ("10.0.0.5" ∷ []) ingress "==" "||")
        (block_match (some block) ingress))
      ((port_value packet (start_state "pg42").rule && or_true none)
        && (any_ip packet ingress ("10.0.0.5" ∷ []) || block_value packet ingress (some block)))
rule_match-Means_example =
    rule_match-Means packet (start_state "pg42") ingress ("10.0.0.5" ∷ []) (some block) none
      (inl (λ e. cc)) refl

create_ports_match-Reads_example :
    Reads packet single
      (create_ports_match (tcp_and_udp (80 ∷ 443 ∷ []) (53 ∷ [])) "dst")
      (any_port packet "tcp" "dst" (80 ∷ 443 ∷ []) || any_port packet "udp" "dst" (53 ∷ []))
create_ports_match-Reads_example =
    create_ports_match-Reads packet "dst" (80 ∷ 443 ∷ []) (53 ∷ []) (λ e. cc)

abbrev some_ports : List NetworkPolicyPort
some_ports =
    record { protocol = some tcp; port = some (int 80) }
    ∷ record { protocol = some udp; port = some (named "dns") }
    ∷ record { protocol = some udp; port = some (int 53) }
    ∷ []

get_network_ports-answer_example :
    get_network_ports some_ports (printing "") fresh
    ≡ answer (all_numbered some_ports) no_ports fresh
get_network_ports-answer_example = get_network_ports-answer (printing "") fresh some_ports

abbrev refreshed_world : World
refreshed_world = world_of (refresh_network_policies (ok (sample ∷ [])) (printing "") fresh)
