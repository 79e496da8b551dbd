-- ===== src/Policy/Acls.antt =====
-- addACLs of pkg/controller/networkpolicy/networkpolicy_controller.go: a policy's rules as OVN ACLs.
-- `AclState` holds the variables that the function declares before its loops, which keep their
-- values from one rule and one peer to the next.
use icn_nodus.Common.{
  if◌then◌else◌, is_some, sprint, is_blank, itoa, pos, String, Bool, true, false, not, ◌&&◌, ◌||◌,
  Option, none, some, List, [], ◌∷◌, ◌++◌,
}
use icn_nodus.Api.{Labels, Pod}
use icn_nodus.Effect.{
  ListOptions, list_pods, Env, M, ◌>>=◌, ◌>>◌, pure, ask, of_result, log, for_each, effects,
}
use icn_nodus.Ovn.Acl.{PolicyDirection, egress, other, Acl, acl_add}
use icn_nodus.Ovn.Exec.{run_ovn_nbctl}
use icn_nodus.Ovn.PortGroup.{match_port}
use icn_nodus.Policy.{
  NetworkPolicyPort, IpBlock, NetworkPolicyPeer, NetworkPolicy, XgressRule, get_ips, concatenate,
  add_braces, take_port, collect_ports, get_network_ports, get_ports_match, create_ports_match,
  create_ip_block_match, ip_slice_to_acl,
}

unfoldable pub get_port_group_name : Env → NetworkPolicy → String
get_port_group_name env policy =
    sprint ("pg" ∷ itoa (env.fnv (sprint (policy.namespace ∷ "_" ∷ policy.name ∷ []))) ∷ [])

abbrev pub selector_options : Option Labels → ListOptions
selector_options selector = record { label_selector = selector; namespace = "" }

-- The call of the cluster's client, and its answer.
unfoldable pub list_with : List ListOptions → M (List Pod)
list_with options = do
  answer ← ask (λ env trace. env.pods trace options)
  log (list_pods options)
  of_result answer

unfoldable pub get_peer_ips : NetworkPolicyPeer → M (List String)
get_peer_ips peer = do
  found ←
      list_with (selector_options peer.namespace_selector ∷ selector_options peer.pod_selector ∷ [])
  pure (get_ips found)

unfoldable pub create_peer_match : NetworkPolicyPeer → PolicyDirection → M String
create_peer_match peer direction = do
  ips ← get_peer_ips peer
  pure (ip_slice_to_acl ips direction "==" "||")

pub record AclState : Type 0 where
  pub ports_match : String
  pub acl_rule : String
  pub rule : Acl
  pub ovn_rules : List Acl

abbrev pub start_state : String → AclState
start_state entity = record {
  ports_match = "";
  acl_rule = "";
  rule = record {
    entity = entity;
    direction = other "";
    priority = pos 1000;
    match = "";
    verdict = "allow";
  };
  ovn_rules = [];
}

abbrev pub block_side : PolicyDirection → String
block_side egress = "dst"
block_side _ = "src"

unfoldable pub block_match : Option IpBlock → PolicyDirection → String
block_match none direction = ""
block_match (some block) direction = create_ip_block_match block (block_side direction)

abbrev pub has_selector : NetworkPolicyPeer → Bool
has_selector peer = is_some peer.namespace_selector || is_some peer.pod_selector

-- The peer and the address block in one expression.
unfoldable pub peer_or_block : String → String → String
peer_or_block peer_match block =
    if not (is_blank peer_match) && not (is_blank block)
    then concatenate (add_braces peer_match) block "||"
    else if not (is_blank peer_match)
    then peer_match
    else block

-- The new value of `aclRule`: it keeps its old one if the peer gave no expression.
unfoldable pub next_acl_rule : String → String → String → String
next_acl_rule tmp ports_match old =
    if not (is_blank tmp) && not (is_blank ports_match)
    then sprint (ports_match ∷ " && " ∷ add_braces tmp ∷ [])
    else if not (is_blank tmp)
    then add_braces tmp
    else old

unfoldable pub port_match : Acl → String
port_match rule = concatenate (match_port rule.direction) (sprint ("@" ∷ rule.entity ∷ [])) "=="

-- The match text of the rule for one peer.
unfoldable pub rule_match : AclState → String → String → String
rule_match s peer_match block =
    concatenate (port_match s.rule)
      (next_acl_rule (peer_or_block peer_match block) s.ports_match s.acl_rule) "&&"

abbrev pub push_rule : Acl → AclState → AclState
push_rule rule s = record s {
  rule = rule;
  ovn_rules = if is_blank rule.match then s.ovn_rules else s.ovn_rules ++ rule ∷ [];
}

unfoldable pub add_peer : PolicyDirection → NetworkPolicyPeer → AclState → M AclState
add_peer direction peer s = do
  peer_match ← if has_selector peer then create_peer_match peer direction else pure ""
  let block = block_match peer.ip_block direction
  let acl_rule = next_acl_rule (peer_or_block peer_match block) s.ports_match s.acl_rule
  let rule = record s.rule { match = rule_match s peer_match block }
  pure (push_rule rule (record s { acl_rule = acl_rule }))

unfoldable pub add_peers : PolicyDirection → List NetworkPolicyPeer → AclState → M AclState
add_peers direction [] s = pure s
add_peers direction (peer ∷ peers) s = do
  s' ← add_peer direction peer s
  add_peers direction peers s'

-- A rule with no peers: its ports, or all traffic at priority 2000, which the template keeps.
unfoldable pub add_no_peer : AclState → AclState
add_no_peer s =
    let rule =
      if is_blank s.ports_match
      then record s.rule {
        priority = pos 2000;
        match = concatenate (port_match s.rule) "(tcp || udp || icmp || sctp)" "&&";
      }
      else record s.rule { match = concatenate (port_match s.rule) s.ports_match "&&" } in
    record s { rule = rule; ovn_rules = s.ovn_rules ++ rule ∷ [] }

unfoldable pub ports_match_of : List NetworkPolicyPort → String → M String
ports_match_of [] old = pure old
ports_match_of (p ∷ ps) old = do
  ports ← get_network_ports (p ∷ ps)
  pure (
      add_braces
        (concatenate (create_ports_match ports "dst") (create_ports_match ports "src") "||"))

abbrev pub peers_of : XgressRule → List NetworkPolicyPeer → AclState → M AclState
peers_of xgress [] s = pure (add_no_peer s)
peers_of xgress (peer ∷ peers) s = add_peers xgress.direction (peer ∷ peers) s

-- What one round of the outer loop collects.
unfoldable pub build_rule : XgressRule → AclState → M AclState
build_rule xgress s = do
  ports_match ← ports_match_of xgress.ports s.ports_match
  peers_of xgress xgress.peer (record s {
    ports_match = ports_match;
    rule = record s.rule { direction = xgress.direction };
  })

unfoldable pub apply_acl : Acl → M (Unit {0})
apply_acl rule = do _ ← acl_add rule "" "" "" "" true false; pure tt

-- The outer loop: after each rule all ACLs collected so far are added.
unfoldable pub add_acls_from : List XgressRule → AclState → M (Unit {0})
add_acls_from [] s = pure tt
add_acls_from (xgress ∷ rest) s = do
  s' ← build_rule xgress s
  for_each s'.ovn_rules apply_acl
  add_acls_from rest s'

unfoldable pub add_acls : NetworkPolicy → List XgressRule → M (Unit {0})
add_acls policy rules = do
  entity ← ask (λ env _. get_port_group_name env policy)
  add_acls_from rules (start_state entity)

-- For tests: all of this file that computes.
unfoldable pub run_acls : Unit {0}
unfolding effects get_ports_match create_ports_match create_ip_block_match ip_slice_to_acl
    get_network_ports collect_ports take_port list_with get_peer_ips create_peer_match block_match
    peer_or_block rule_match next_acl_rule port_match add_peer add_peers add_no_peer ports_match_of
    build_rule apply_acl add_acls_from add_acls run_ovn_nbctl acl_add match_port concatenate
    add_braces get_port_group_name
run_acls = tt
