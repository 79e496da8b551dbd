-- ===== src/Policy/Deny.antt =====
-- Deny by default: what networkpolicy_controller.go and port_group.go guarantee of a policy that was
-- created.
use icn_nodus.Common.{
  ltb, length, All, ℕ, ◌<◌, String, ◌≡◌, refl, Bool, true, false, some, List, [], ◌∷◌, arith,
}
use icn_nodus.Effect.{
  Result, ok, err, Event, nbctl, list_pods, Env, World, Run, done, fail, crash, M, continue, ◌>>=◌,
  ◌>>◌, pure, error_of, ask, of_result, effects,
}
use icn_nodus.Effect.Emits.{Extends, Any, Emits, Emits-pure, Emits-bind}
use icn_nodus.Effect.Inverse.{>>=-eq-done, done-eq-done, try-eq-ok, Issued, Issued-Emits}
use icn_nodus.Ovn.Exec.Calls.{run_ovn_nbctl-Emits, must-Emits, must-Issued}
use icn_nodus.Ovn.Acl.{PolicyDirection, ingress, egress, Acl, acl_list, acl_add_args, acl_add}
use icn_nodus.Ovn.PortGroup.{pg_set_ports, deny_rule, add_deny_rule, when, existing, add_deny_pg}
use icn_nodus.Policy.{NetworkPolicy, XgressRule, get_ports}
use icn_nodus.Policy.Acls.{get_port_group_name, list_with, add_acls}
use icn_nodus.Policy.Emitted.{add_acls-IsAllowing}
use icn_nodus.Policy.Handlers.{
  process_policy_rules, kinds_of, not_failed, policy_pods, set_ports, create_steps, create_policy,
}
use icn_nodus.Api.{Pod}

-- The command that adds the rule which drops a group's traffic in one direction.
abbrev pub deny_command : String → PolicyDirection → Event
deny_command pg_name direction =
    nbctl (acl_add_args (deny_rule pg_name direction) "" "" "GeneralDenyACL" true false)

acl_add-Any :
    (rule : Acl) (entity_type meter severity name : String) (may_exist en_log : Bool)
    → Emits Any (acl_add rule entity_type meter severity name may_exist en_log)
unfolding acl_add
acl_add-Any rule entity_type meter severity name may_exist en_log =
    must-Emits _ (run_ovn_nbctl-Emits _ tt)

pub add_deny_rule-Any :
    (pg_name : String) (d : PolicyDirection) → Emits Any (add_deny_rule pg_name d)
unfolding add_deny_rule
add_deny_rule-Any pg_name d =
    Emits-bind _ _ (acl_add-Any _ _ _ _ _ _ _)
      (λ _. Emits-bind _ _ (acl_add-Any _ _ _ _ _ _ _) (λ _. Emits-pure tt))

-- An acl-add that returned was made.
acl_add-Issued :
    (rule : Acl) (name : String) (env : Env) (w v : World) (s : String)
    → acl_add rule "" "" "" name true false env w ≡ done s v
    → Issued (nbctl (acl_add_args rule "" "" name true false)) v.trace
unfolding acl_add
acl_add-Issued rule name env w v s h = must-Issued _ env w v s h

add_deny_rule-Issued :
    (pg_name : String) (d : PolicyDirection) (env : Env) (w v : World)
    → add_deny_rule pg_name d env w ≡ done tt v
    → Issued (deny_command pg_name d) v.trace
unfolding add_deny_rule
add_deny_rule-Issued pg_name d env w v h =
    let (s, u, p, q) = >>=-eq-done _ _ env w tt v h in
    Issued-Emits _ _ env u v tt (Emits-bind _ _ (acl_add-Any _ _ _ _ _ _ _) (λ _. Emits-pure tt)) q
      (acl_add-Issued _ _ env w u s p)

-- The port group has fewer than four rules, or its rules cannot be listed.
abbrev pub HasFewRules : String → Env → World → Type 0
HasFewRules pg_name env w =
    (rules : List Acl) (v : World) → acl_list pg_name "" env w ≡ done rules v → length rules < 4

existing-lt :
    (pg_name : String) (listed : Result (List Acl)) (env : Env) (w v : World) (n : ℕ)
    → ((rules : List Acl) → listed ≡ ok rules → length rules < 4)
    → existing pg_name listed env w ≡ done n v
    → ltb n 4 ≡ true
unfolding existing pure
existing-lt pg_name (ok rules) env w v n few h = ground (arith, few rules refl, (done-eq-done h).0)
existing-lt pg_name (err e) env w v n few h =
    let (x, u, p, q) = >>=-eq-done _ _ env w n v h in ground (arith, (done-eq-done q).0)

when-Issued :
    (b : Bool) (pg_name : String) (d : PolicyDirection) (env : Env) (w v : World)
    → when b (add_deny_rule pg_name d) env w ≡ done tt v
    → b ≡ true
    → Issued (deny_command pg_name d) v.trace
when-Issued true pg_name d env w v h e = add_deny_rule-Issued pg_name d env w v h
when-Issued false pg_name d env w v h e = cc

pub when-Any :
    (b : Bool) (pg_name : String) (d : PolicyDirection)
    → Emits Any (when b (add_deny_rule pg_name d))
when-Any true pg_name d = add_deny_rule-Any pg_name d
when-Any false pg_name d = Emits-pure tt

module _ (pg_name : String) (is_ingress is_egress : Bool) (env : Env) (w v : World) where
  -- Whatever the group held, AddDenyPG has added the rule that drops traffic for each of the
  -- policy's directions, if it returned and the group had fewer than four rules.
  add_deny_pg-Issued :
      HasFewRules pg_name env w
      → add_deny_pg pg_name is_ingress is_egress env w ≡ done tt v
      → (is_ingress ≡ true → Issued (deny_command pg_name ingress) v.trace)
        × (is_egress ≡ true → Issued (deny_command pg_name egress) v.trace)
  unfolding add_deny_pg
  add_deny_pg-Issued few h =
      let (listed, w1, p1, q1) = >>=-eq-done _ _ env w tt v h in
      let (n, w2, p2, q2) = >>=-eq-done _ _ env w1 tt v q1 in
      let lt =
        existing-lt pg_name listed env w1 w2 n
          (λ rules e. few rules w1 (try-eq-ok _ env w rules w1 (rw e at p1))) p2 in
      let (t, w3, p3, q3) = >>=-eq-done _ _ env w2 tt v (rw lt at q2) in
      (
        λ e.
            Issued-Emits {P = Any} _ _ env w3 v tt (when-Any is_egress pg_name egress) q3
              (when-Issued is_ingress pg_name ingress env w2 w3 p3 e),
        λ e. when-Issued is_egress pg_name egress env w3 v q3 e,
      )

pub set_ports-Any : (pg_name : String) (ports : List String) → Emits Any (set_ports pg_name ports)
unfolding set_ports pg_set_ports
set_ports-Any pg_name [] = Emits-pure tt
set_ports-Any pg_name (port ∷ ports) =
    Emits-bind _ _ (must-Emits _ (run_ovn_nbctl-Emits _ tt)) (λ _. Emits-pure tt)

Extends-Any : {P : Event → Type 0} {l m : List Event} → Extends P l m → Extends Any l m
Extends-Any (added, p, h) = (added, p, all_any added)
  where
    all_any : (added : List Event) → All Any added
    all_any [] = tt
    all_any (x ∷ added) = (tt, all_any added)

add_acls-Any :
    (policy : NetworkPolicy) (rules : List XgressRule) → Emits Any (add_acls policy rules)
add_acls-Any policy rules = record {
  adds = λ env w. Extends-Any (add_acls-IsAllowing policy rules env w);
}

pub process-Any : (policy : NetworkPolicy) → Emits Any (process_policy_rules policy)
unfolding process_policy_rules
process-Any policy = Emits-bind _ _ (add_acls-Any policy _) (λ _. add_acls-Any policy _)

-- The world after the pods of a policy were listed.
abbrev pub pods_listed : NetworkPolicy → World → World
pods_listed policy w = record w {
  trace =
      list_pods
        (record { label_selector = some policy.pod_selector; namespace = policy.namespace } ∷ [])
      ∷ w.trace;
}

-- The steps of createPolicy behind the listing of the pods.
abbrev rest_steps : NetworkPolicy → String → List Pod → M (Unit {0})
rest_steps policy pg_name found = do
  add_deny_pg pg_name (kinds_of policy).0 (kinds_of policy).1
  set_ports pg_name (get_ports found)
  process_policy_rules policy

module _ (policy : NetworkPolicy) (env : Env) (w v : World) where
  pods_step :
      (r : Result (List Pod))
      → continue
          (of_result r env (pods_listed policy w))
          (λ found. ask (λ env' _. get_port_group_name env' policy) >>= λ pg_name.
            rest_steps policy pg_name found)
          env
        ≡ done tt v
      → (found : List Pod) × (rest_steps policy
            (get_port_group_name env policy)
            found
            env
            (pods_listed policy w)
          ≡ done tt v)
  unfolding effects
  pods_step (ok found) h = (found, h)
  pods_step (err e) h = cc

  create_steps-rest :
      create_steps policy env w ≡ done tt v
      → (found : List Pod) × (rest_steps policy
            (get_port_group_name env policy)
            found
            env
            (pods_listed policy w)
          ≡ done tt v)
  unfolding create_steps policy_pods list_with effects
  create_steps-rest h =
      pods_step
        (env.pods w.trace
          (record { label_selector = some policy.pod_selector; namespace = policy.namespace } ∷ []))
        h

module _ (policy : NetworkPolicy) (pg_name : String) (found : List Pod) (env : Env)
    (w v : World) where
  rest_steps-Issued :
      HasFewRules pg_name env w
      → rest_steps policy pg_name found env w ≡ done tt v
      → ((kinds_of policy).0 ≡ true → Issued (deny_command pg_name ingress) v.trace)
        × ((kinds_of policy).1 ≡ true → Issued (deny_command pg_name egress) v.trace)
  rest_steps-Issued few h =
      let (t, u, p, q) = >>=-eq-done _ _ env w tt v h in
      let (i, e) =
        add_deny_pg-Issued pg_name (kinds_of policy).0 (kinds_of policy).1 env w u few p in
      let kept =
        Emits-bind _ _ (set_ports-Any pg_name (get_ports found)) (λ _. process-Any policy) in
      (λ x. Issued-Emits _ _ env u v tt kept q (i x), λ x. Issued-Emits _ _ env u v tt kept q (e x))

module _ (policy : NetworkPolicy) (env : Env) (w v : World) where
  create_policy-true :
      create_policy policy env w ≡ done true v → create_steps policy env w ≡ done tt v
  unfolding create_policy effects
  create_policy-true h = succeeded-true (create_steps policy env w) h
    where
      succeeded-true :
          (r : Run (Unit {0}))
          → continue (error_of r) (λ e. pure (not_failed e)) env ≡ done true v
          → r ≡ done tt v
      succeeded-true (done t u) h = cc
      succeeded-true (fail e u) h = cc
      succeeded-true (crash u) h = cc

-- Deny by default: if createPolicy reports success and the policy's port group had fewer than four
-- rules (or none that could be listed), then ovn-nbctl was given the rule that drops the group's
-- traffic, for ingress if the policy restricts ingress and for egress if it restricts egress,
-- whatever the cluster and ovn-nbctl answered.
pub create_policy-denies :
    (policy : NetworkPolicy) (env : Env) (w v : World)
    → HasFewRules (get_port_group_name env policy) env (pods_listed policy w)
    → create_policy policy env w ≡ done true v
    → ((kinds_of policy).0 ≡ true
        → Issued (deny_command (get_port_group_name env policy) ingress) v.trace)
      × ((kinds_of policy).1 ≡ true
          → Issued (deny_command (get_port_group_name env policy) egress) v.trace)
create_policy-denies policy env w v few h =
    let (found, rest) = create_steps-rest policy env w v (create_policy-true policy env w v h) in
    rest_steps-Issued policy _ found env (pods_listed policy w) v few rest
