-- ===== src/Ovn/PortGroup.antt =====
-- internal/pkg/ovn/port_group.go: port groups through ovn-nbctl, and the rules that deny by default.
use icn_nodus.Common.{ltb, sprint, pos, length, ℕ, String, Bool, true, false, List, [], ◌∷◌}
use icn_nodus.Effect.{Result, ok, err, M, ◌>>=◌, ◌>>◌, pure, attempt, try, effects}
use icn_nodus.Ovn.Exec.{run_ovn_nbctl, must}
use icn_nodus.Ovn.Acl.{PolicyDirection, ingress, egress, Acl, acl_list, acl_add}

unfoldable pub prepare_pg_args : String → String → List String → List String
prepare_pg_args command group ports = command ∷ group ∷ ports

unfoldable pub pg_add_with_ports : String → List String → M String
pg_add_with_ports group ports = must (run_ovn_nbctl (prepare_pg_args "pg-add" group ports))

unfoldable pub pg_add : String → M String
pg_add group = pg_add_with_ports group []

unfoldable pub pg_set_ports : String → List String → M String
pg_set_ports group ports = must (run_ovn_nbctl (prepare_pg_args "pg-set-ports" group ports))

unfoldable pub pg_del : String → M String
pg_del group = must (run_ovn_nbctl ("pg-del" ∷ group ∷ []))

-- The logical port that the direction's rules match on.
unfoldable pub match_port : PolicyDirection → String
match_port ingress = "outport"
match_port _ = "inport"

abbrev pub deny_rule : String → PolicyDirection → Acl
unfolding match_port
deny_rule pg_name direction = record {
  entity = pg_name;
  direction = direction;
  priority = pos 0;
  match =
      sprint
        (match_port direction ∷ " == " ∷ "@" ∷ pg_name ∷ " && (tcp || udp || icmp || sctp)" ∷ []);
  verdict = "drop";
}

abbrev pub allow_arp_rule : String → PolicyDirection → Acl
unfolding match_port
allow_arp_rule pg_name direction = record {
  entity = pg_name;
  direction = direction;
  priority = pos 1;
  match = sprint (match_port direction ∷ " == " ∷ "@" ∷ pg_name ∷ " && arp" ∷ []);
  verdict = "allow";
}

unfoldable pub add_deny_rule : String → PolicyDirection → M (Unit {0})
add_deny_rule pg_name direction = do
  _ ← acl_add (deny_rule pg_name direction) "" "" "" "GeneralDenyACL" true false
  _ ← acl_add (allow_arp_rule pg_name direction) "" "" "" "ArpAllowACL" true false
  pure tt

-- `if c { m }`
abbrev pub when : Bool → M (Unit {0}) → M (Unit {0})
when true m = m
when false m = pure tt

-- The count of the rules that a listing gave, after PGAdd where the listing failed; what PGAdd
-- returns is not looked at.
unfoldable pub existing : String → Result (List Acl) → M ℕ
existing pg_name (ok rules) = pure (length rules)
existing pg_name (err e) = do _ ← attempt (pg_add pg_name); pure 0

unfoldable pub add_deny_pg : String → Bool → Bool → M (Unit {0})
add_deny_pg pg_name is_ingress is_egress = do
  listed ← try (acl_list pg_name "")
  n ← existing pg_name listed
  when (ltb n 4) (do
    when is_ingress (add_deny_rule pg_name ingress)
    when is_egress (add_deny_rule pg_name egress))

-- For proofs that compute: all of this file and of acl.go that builds a run.
unfoldable pub run_groups : Unit {0}
unfolding effects run_ovn_nbctl acl_list acl_add pg_add_with_ports pg_add pg_set_ports pg_del
    add_deny_rule existing add_deny_pg
run_groups = tt
