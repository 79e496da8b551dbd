-- ===== src/Policy/Emitted.antt =====
-- Which calls the policy controller makes (networkpolicy_controller.go, acl.go and port_group.go).
use icn_nodus.Common.{
  if◌then◌else◌, Bool-cases, is_blank, All, All-append, String, ◌≡◌, refl, ◌⊎◌, inl, inr, Bool,
  true, false, Option, none, some, List, [], ◌∷◌, ◌++◌,
}
use icn_nodus.Effect.{ListOptions, Event, nbctl, list_pods, Env, World, ◌>>=◌, ask, for_each}
use icn_nodus.Effect.Emits.{world_of, Extends, Emits, Emits-pure, Emits-panic, Emits-bind, Emits-if}
use icn_nodus.Effect.Ensures.{Ensures, Ensures-bind, Ensures-Emits, Emits-Ensures, Ensures-pure}
use icn_nodus.Ovn.Exec.Calls.{call_rules}
use icn_nodus.Ovn.Acl.{PolicyDirection, Acl, acl_add_args, acl_add}
use icn_nodus.Policy.{
  Protocol, IntOrString, int, named, NetworkPolicyPort, NetworkPolicyPeer, NetworkPolicy,
  XgressRule, PolicyPorts, no_ports, take_port, collect_ports, get_network_ports,
}
use icn_nodus.Policy.Acls.{
  get_port_group_name, list_with, get_peer_ips, create_peer_match, AclState, add_peer, add_peers,
  add_no_peer, ports_match_of, peers_of, build_rule, apply_acl, add_acls_from, add_acls,
}

-- An acl-add command that allows traffic of one port group.
abbrev pub IsAllowAdd : String → Event → Type 0
IsAllowAdd entity e =
    (rule : Acl) × (e ≡ nbctl (acl_add_args rule "" "" "" true false))
    × (rule.entity ≡ entity)
    × (rule.verdict ≡ "allow")

-- A call of addACLs: a listing of pods, or such a command.
abbrev pub IsAllowing : String → Event → Type 0
IsAllowing entity e = ((options : List ListOptions) × (e ≡ list_pods options)) ⊎ IsAllowAdd entity e

module _ {P : Event → Type 0} where
  acl_add-Emits :
      (rule : Acl) (entity_type meter severity name : String) (may_exist en_log : Bool)
      → P (nbctl (acl_add_args rule entity_type meter name may_exist en_log))
      → Emits P (acl_add rule entity_type meter severity name may_exist en_log)
  unfolding acl_add
  acl_add-Emits rule entity_type meter severity name may_exist en_log h = search call_rules

  apply_acl-Emits :
      (rule : Acl) → P (nbctl (acl_add_args rule "" "" "" true false)) → Emits P (apply_acl rule)
  unfolding apply_acl
  apply_acl-Emits rule h = search (call_rules, acl_add-Emits)

  list_with-Emits :
      (options : List ListOptions) → P (list_pods options) → Emits P (list_with options)
  unfolding list_with
  list_with-Emits options h = search call_rules

module _ (entity : String) where
  -- The template and the collected rules allow traffic of the group `entity`.
  abbrev IsOfGroup : Acl → Type 0
  IsOfGroup rule = (rule.entity ≡ entity) × (rule.verdict ≡ "allow")

  abbrev AreOfGroup : AclState → Type 0
  AreOfGroup s = IsOfGroup s.rule × All IsOfGroup s.ovn_rules

  create_peer_match-Emits :
      (peer : NetworkPolicyPeer) (direction : PolicyDirection)
      → Emits (IsAllowing entity) (create_peer_match peer direction)
  unfolding create_peer_match get_peer_ips
  create_peer_match-Emits peer direction =
      Emits-bind _ _ (Emits-bind _ _ (list_with-Emits _ (inl (_, refl))) (λ found. Emits-pure _))
        (λ ips. Emits-pure _)

  All-push :
      (rule : Acl) (rules : List Acl) (b : Bool)
      → IsOfGroup rule
      → All IsOfGroup rules
      → All IsOfGroup (if b then rules else rules ++ rule ∷ [])
  All-push rule rules true p h = h
  All-push rule rules false p h = All-append IsOfGroup rules (rule ∷ []) h (p, tt)

  add_peer-Ensures :
      (direction : PolicyDirection) (peer : NetworkPolicyPeer) (s : AclState)
      → AreOfGroup s
      → Ensures (IsAllowing entity) AreOfGroup (add_peer direction peer s)
  unfolding add_peer
  add_peer-Ensures direction peer s (p, h) =
      Ensures-bind _ _
        (Ensures-Emits (Emits-if _ _ _ (create_peer_match-Emits peer direction) (Emits-pure _)))
        (λ peer_match _. Ensures-pure _ (p, All-push _ s.ovn_rules _ p h))

  add_peers-Ensures :
      (direction : PolicyDirection) (peers : List NetworkPolicyPeer) (s : AclState)
      → AreOfGroup s
      → Ensures (IsAllowing entity) AreOfGroup (add_peers direction peers s)
  unfolding add_peers
  add_peers-Ensures direction [] s h = Ensures-pure s h
  add_peers-Ensures direction (peer ∷ peers) s h =
      Ensures-bind _ _ (add_peer-Ensures direction peer s h)
        (λ s' h'. add_peers-Ensures direction peers s' h')

  add_no_peer-OfGroup : (s : AclState) → AreOfGroup s → AreOfGroup (add_no_peer s)
  unfolding add_no_peer
  add_no_peer-OfGroup s (p, h) = elim (Bool-cases (is_blank s.ports_match)) [
    | inl e ↦ rw e (p, All-append IsOfGroup s.ovn_rules _ h (p, tt))
    | inr e ↦ rw e (p, All-append IsOfGroup s.ovn_rules _ h (p, tt))
  ]

  peers_of-Ensures :
      (xgress : XgressRule) (peers : List NetworkPolicyPeer) (s : AclState)
      → AreOfGroup s
      → Ensures (IsAllowing entity) AreOfGroup (peers_of xgress peers s)
  peers_of-Ensures xgress [] s h = Ensures-pure _ (add_no_peer-OfGroup s h)
  peers_of-Ensures xgress (peer ∷ peers) s h = add_peers-Ensures xgress.direction (peer ∷ peers) s h

  take_port-Emits :
      (port : Option IntOrString) (protocol : Option Protocol) (ports : PolicyPorts)
      → Emits (IsAllowing entity) (take_port port protocol ports)
  unfolding take_port
  take_port-Emits none protocol ports = Emits-panic
  take_port-Emits (some (named s)) protocol ports = Emits-pure ports
  take_port-Emits (some (int n)) none ports = Emits-panic
  take_port-Emits (some (int n)) (some p) ports = Emits-pure _

  collect_ports-Emits :
      (ps : List NetworkPolicyPort) (ports : PolicyPorts)
      → Emits (IsAllowing entity) (collect_ports ps ports)
  unfolding collect_ports
  collect_ports-Emits [] ports = Emits-pure ports
  collect_ports-Emits (p ∷ ps) ports =
      Emits-bind _ _ (take_port-Emits p.port p.protocol ports)
        (λ ports'. collect_ports-Emits ps ports')

  ports_match_of-Emits :
      (ps : List NetworkPolicyPort) (old : String)
      → Emits (IsAllowing entity) (ports_match_of ps old)
  unfolding ports_match_of get_network_ports
  ports_match_of-Emits [] old = Emits-pure old
  ports_match_of-Emits (p ∷ ps) old =
      Emits-bind _ _ (collect_ports-Emits (p ∷ ps) no_ports) (λ ports. Emits-pure _)

  build_rule-Ensures :
      (xgress : XgressRule) (s : AclState)
      → AreOfGroup s
      → Ensures (IsAllowing entity) AreOfGroup (build_rule xgress s)
  unfolding build_rule
  build_rule-Ensures xgress s h =
      Ensures-bind _ _ (Ensures-Emits (ports_match_of-Emits xgress.ports s.ports_match))
        (λ ports_match _. peers_of-Ensures xgress xgress.peer _ h)

  apply_each-Emits :
      (rules : List Acl)
      → All IsOfGroup rules
      → Emits (IsAllowing entity) (for_each rules apply_acl)
  unfolding for_each
  apply_each-Emits [] h = Emits-pure tt
  apply_each-Emits (rule ∷ rules) ((p, q), h) =
      Emits-bind _ _ (apply_acl-Emits rule (inr (rule, refl, p, q))) (λ _. apply_each-Emits rules h)

  add_acls_from-Emits :
      (rules : List XgressRule) (s : AclState)
      → AreOfGroup s
      → Emits (IsAllowing entity) (add_acls_from rules s)
  unfolding add_acls_from
  add_acls_from-Emits [] s h = Emits-pure tt
  add_acls_from-Emits (xgress ∷ rest) s h = Emits-Ensures (
      Ensures-bind _ _ (build_rule-Ensures xgress s h) (λ s' h'. Ensures-Emits (
        Emits-bind _ _ (apply_each-Emits s'.ovn_rules h'.1) (λ _. add_acls_from-Emits rest s' h'))))

-- Whatever the policy's rules, the cluster's pods and the replies of ovn-nbctl are, and however the
-- run ends, addACLs adds nothing to the trace but listings of pods and acl-add commands with the
-- verdict "allow" on the port group of the policy.
pub add_acls-IsAllowing :
    (policy : NetworkPolicy) (rules : List XgressRule) (env : Env) (w : World)
    → Extends
        (IsAllowing (get_port_group_name env policy))
        w.trace
        (world_of (add_acls policy rules env w)).trace
unfolding add_acls ◌>>=◌ ask
add_acls-IsAllowing policy rules env w =
    (add_acls_from-Emits (get_port_group_name env policy) rules _ ((refl, refl), tt)).adds env w
