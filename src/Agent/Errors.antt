-- ===== src/Agent/Errors.antt =====
-- cmd/nfn-agent/nfn-agent.go: no message gives the agent an error.
use icn_nodus.Common.{if◌then◌else◌, String, Bool, true, false, List, [], ◌∷◌}
use icn_nodus.Api.Messages.{
  Message, nothing, vlan_create, direct_create, vlan_remove, direct_remove, route_insert,
  route_remove, pod_add_network, pod_del_network, in_sync,
}
use icn_nodus.Effect.{
  Event, Env, World, Run, done, fail, crash, M, continue, ◌>>=◌, pure, error_of, attempt, ask,
}
use icn_nodus.Ovn.Exec.{run_ovs_vsctl}
use icn_nodus.Ovn.Bridge.{get_vlan, bridges_with, get_pn_bridge}
use icn_nodus.Agent.Handling.{
  AgentState, NodeClients, on_create, on_remove, on_sync, handle_notif, handle_all,
}
use icn_nodus.Agent.{
  network_of, delete_network, bridge_of, sync_bridges, drop_bridges, in_sync_vlan, in_sync_direct,
}

abbrev pub NoError : {A : Type 0} → Run A → Type 0
NoError (done a w) = Unit {0}
NoError (fail e w) = ⊥
NoError (crash w) = Unit {0}

-- The run returns a value or panics.
pub record NeverFails {A : Type 0} (m : M A) : Type 0 where
  pub ends : (env : Env) (w : World) → NoError (m env w)

module _ {A B : Type 0} where
  after_run :
      (f : A → M B) (h : (a : A) → NeverFails (f a)) (env : Env) (r : Run A)
      → NoError r
      → NoError (continue r f env)
  after_run f h env (done a w) n = (h a).ends env w
  after_run f h env (fail e w) n = n
  after_run f h env (crash w) n = tt

  NeverFails-bind :
      (m : M A) (f : A → M B) → NeverFails m → ((a : A) → NeverFails (f a)) → NeverFails (m >>= f)
  unfolding ◌>>=◌
  NeverFails-bind m f hm hf = record {
    ends = λ env w. after_run f hf env (m env w) (hm.ends env w);
  }

module _ {A : Type 0} where
  NeverFails-if :
      (b : Bool) (m n : M A) → NeverFails m → NeverFails n → NeverFails (if b then m else n)
  NeverFails-if true m n hm hn = hm
  NeverFails-if false m n hm hn = hn

  NeverFails-pure : (a : A) → NeverFails (pure a)
  unfolding pure
  NeverFails-pure a = record { ends = λ env w. tt }

  NeverFails-ask : (f : Env → List Event → A) → NeverFails (ask f)
  unfolding ask
  NeverFails-ask f = record { ends = λ env w. tt }

  error_of-NoError : (r : Run A) → NoError (error_of r)
  error_of-NoError (done a w) = tt
  error_of-NoError (fail e w) = tt
  error_of-NoError (crash w) = tt

  NeverFails-attempt : (m : M A) → NeverFails (attempt m)
  unfolding attempt
  NeverFails-attempt m = record { ends = λ env w. error_of-NoError (m env w) }

NeverFails-vsctl : (args : List String) → NeverFails (run_ovs_vsctl args)
unfolding run_ovs_vsctl
NeverFails-vsctl args = record { ends = λ env w. tt }

ruleset quiet_rules = (
  NeverFails-bind, NeverFails-if, NeverFails-pure, NeverFails-ask, NeverFails-attempt,
  NeverFails-vsctl,
)

bridges_with-NeverFails : (key : String) (names : List String) → NeverFails (bridges_with key names)
unfolding bridges_with
bridges_with-NeverFails key [] = NeverFails-pure []
bridges_with-NeverFails key (name ∷ names) =
    let rest = bridges_with-NeverFails key names in search quiet_rules

get_pn_bridge-NeverFails : (key : String) → NeverFails (get_pn_bridge key)
unfolding get_pn_bridge
get_pn_bridge-NeverFails key = search (quiet_rules, bridges_with-NeverFails)

sync_bridges-NeverFails :
    (skipped : Message → Bool) (intf : Message → String) (bridges : List String)
    (store : List Message) (found : List String)
    → NeverFails (sync_bridges skipped intf bridges store found)
unfolding sync_bridges
sync_bridges-NeverFails skipped intf bridges [] found = NeverFails-pure found
sync_bridges-NeverFails skipped intf bridges (msg ∷ msgs) found =
    let rest = sync_bridges-NeverFails skipped intf bridges msgs found in
    let known =
      sync_bridges-NeverFails skipped intf bridges msgs
        (bridge_of bridges (network_of msg) ∷ found) in
    search quiet_rules

drop_bridges-NeverFails : (found brs : List String) → NeverFails (drop_bridges found brs)
unfolding drop_bridges
drop_bridges-NeverFails found [] = NeverFails-pure tt
drop_bridges-NeverFails found (br ∷ brs) =
    let rest = drop_bridges-NeverFails found brs in search quiet_rules

in_sync_vlan-NeverFails : (store : List Message) → NeverFails (in_sync_vlan store)
unfolding in_sync_vlan get_vlan
in_sync_vlan-NeverFails store = search (quiet_rules, get_pn_bridge-NeverFails)

in_sync_direct-NeverFails : (store : List Message) → NeverFails (in_sync_direct store)
unfolding in_sync_direct
in_sync_direct-NeverFails store =
    search (quiet_rules, get_pn_bridge-NeverFails, sync_bridges-NeverFails, drop_bridges-NeverFails)

on_create-NeverFails : (agent : AgentState) (msg : Message) → NeverFails (on_create agent msg)
unfolding on_create
on_create-NeverFails agent msg = search quiet_rules depth 8

delete_network-NeverFails : (msg : Message) → NeverFails (delete_network msg)
unfolding delete_network
delete_network-NeverFails msg = search quiet_rules

on_remove-NeverFails : (agent : AgentState) (msg : Message) → NeverFails (on_remove agent msg)
unfolding on_remove
on_remove-NeverFails agent msg = search (quiet_rules, delete_network-NeverFails) depth 8

module _ (clients : NodeClients) where
  on_sync-NeverFails :
      (agent : AgentState) (ip mac ipv6 : String) → NeverFails (on_sync clients agent ip mac ipv6)
  unfolding on_sync
  on_sync-NeverFails agent ip mac ipv6 =
      search (quiet_rules, in_sync_vlan-NeverFails, in_sync_direct-NeverFails) depth 8

  handle_notif-NeverFails :
      (agent : AgentState) (msg : Message) → NeverFails (handle_notif clients agent msg)
  unfolding handle_notif
  handle_notif-NeverFails agent (vlan_create name id provider logical) =
      on_create-NeverFails agent _
  handle_notif-NeverFails agent (direct_create name provider) = on_create-NeverFails agent _
  handle_notif-NeverFails agent (vlan_remove name logical) = on_remove-NeverFails agent _
  handle_notif-NeverFails agent (direct_remove name provider) = on_remove-NeverFails agent _
  handle_notif-NeverFails agent (route_insert id routes) = search quiet_rules
  handle_notif-NeverFails agent (route_remove id routes) = search quiet_rules
  handle_notif-NeverFails agent (pod_add_network id ns name conf routes) = search quiet_rules
  handle_notif-NeverFails agent (pod_del_network id ns name conf routes) = search quiet_rules
  handle_notif-NeverFails agent (in_sync ip mac ipv6) = on_sync-NeverFails agent ip mac ipv6
  handle_notif-NeverFails agent nothing = NeverFails-pure agent

  pub all-NeverFails :
      (agent : AgentState) (msgs : List Message) → NeverFails (handle_all clients agent msgs)
  unfolding handle_all
  all-NeverFails agent [] = NeverFails-pure agent
  all-NeverFails agent (msg ∷ msgs) =
      NeverFails-bind (handle_notif clients agent msg) _ (handle_notif-NeverFails agent msg)
        λ next. all-NeverFails next msgs
