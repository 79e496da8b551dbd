-- ===== src/Policy/Handlers.antt =====
-- The event handlers of pkg/controller/networkpolicy/networkpolicy_controller.go. A handler's result
-- tells whether the event goes on to Reconcile, which only looks the policy up.
use icn_nodus.Common.{
  if◌then◌else◌, String, Bool, true, false, not, ◌||◌, Option, none, some, List, [], ◌∷◌, ◌==◌,
}
use icn_nodus.Api.{Pod}
use icn_nodus.Effect.{Error, message, Result, ok, err, M, ◌>>=◌, ◌>>◌, pure, raise, attempt, ask}
use icn_nodus.Ovn.PortGroup.{pg_set_ports, pg_del, add_deny_pg}
use icn_nodus.Policy.{NetworkPolicy, from_ingress, from_egress, get_ports}
use icn_nodus.Policy.Acls.{get_port_group_name, list_with, add_acls}

unfoldable pub process_policy_rules : NetworkPolicy → M (Unit {0})
process_policy_rules policy = do
  add_acls policy (from_ingress policy.ingress_rules)
  add_acls policy (from_egress policy.egress_rules)

-- The loop over the policy's types: whether it is an ingress and whether it is an egress policy.
unfoldable pub policy_kinds : List String → Bool × Bool → Bool × Bool
policy_kinds [] kinds = kinds
policy_kinds (t ∷ ts) (i, e) = policy_kinds ts (i || t == "Ingress", e || t == "Egress")

abbrev or_ingress : Bool × Bool → Bool × Bool
or_ingress (i, e) = (i || not e, e)

unfoldable pub kinds_of : NetworkPolicy → Bool × Bool
unfolding policy_kinds
kinds_of policy = or_ingress (policy_kinds policy.policy_types (false, false))

abbrev pub not_failed : Option Error → Bool
not_failed none = true
not_failed (some e) = false

unfoldable pub policy_pods : NetworkPolicy → M (List Pod)
policy_pods policy =
    list_with
      (record { label_selector = some policy.pod_selector; namespace = policy.namespace } ∷ [])

unfoldable pub set_ports : String → List String → M (Unit {0})
set_ports pg_name [] = pure tt
set_ports pg_name (port ∷ ports) = do _ ← pg_set_ports pg_name (port ∷ ports); pure tt

-- `createPolicy` up to its first error, at which it returns false.
unfoldable pub create_steps : NetworkPolicy → M (Unit {0})
create_steps policy = do
  found ← policy_pods policy
  pg_name ← ask (λ env _. get_port_group_name env policy)
  let kinds = kinds_of policy
  add_deny_pg pg_name kinds.0 kinds.1
  set_ports pg_name (get_ports found)
  process_policy_rules policy

abbrev pub succeeded : M (Unit {0}) → M Bool
succeeded m = do e ← attempt m; pure (not_failed e)

unfoldable pub create_policy : NetworkPolicy → M Bool
create_policy policy = succeeded (create_steps policy)

unfoldable pub delete_policy : NetworkPolicy → M Bool
delete_policy policy = do
  pg_name ← ask (λ env _. get_port_group_name env policy)
  e ← attempt (pg_del pg_name)
  pure (not_failed e)

unfoldable pub update_policy : NetworkPolicy → NetworkPolicy → M Bool
update_policy old new = do
  status ← delete_policy old
  if status then create_policy new else pure false

-- The `UpdateFunc` of the watch: it reads the old object for both arguments.
unfoldable pub on_update : NetworkPolicy → NetworkPolicy → M Bool
on_update object_old object_new = update_policy object_old object_old

unfoldable pub refresh_each : List NetworkPolicy → M (Unit {0})
refresh_each [] = pure tt
refresh_each (np ∷ nps) = do
  updated ← update_policy np np
  if updated then refresh_each nps else raise (message "Unable to update policy")

-- RefreshNetworkPolicies, given what ListNetworkPolicies returned.
unfoldable pub refresh_network_policies : Result (List NetworkPolicy) → M (Unit {0})
refresh_network_policies (err e) = raise e
refresh_network_policies (ok policies) = refresh_each policies
