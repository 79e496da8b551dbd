-- ===== src/Agent/Settled.antt =====
-- cmd/nfn-agent/nfn-agent.go: the state of the agent behind the message InSync.
use icn_nodus.Common.{
  if◌then◌else◌, is_blank, String, ◌≡◌, refl, true, not, ◌&&◌, ◌||◌, List, [], ◌∷◌, ◌++◌,
}
use icn_nodus.Api.Messages.{
  Message, nothing, vlan_create, direct_create, vlan_remove, direct_remove, route_insert,
  route_remove, pod_add_network, pod_del_network, in_sync,
}
use icn_nodus.Effect.{Env, World, Run, done, fail, crash, ◌>>=◌, pure, attempt}
use icn_nodus.Effect.Returns.{Returns, Returns-pure, Returns-if, Returns-bind, Returns-rest}
use icn_nodus.Chain.Containers.{container_add_route, container_del_route}
use icn_nodus.Agent.Errors.{NoError, all-NeverFails}
use icn_nodus.Agent.Handling.{
  AgentState, NodeClients, on_create, on_remove, create_node_port, on_sync, add_network,
  del_network, handle_notif, handle_all,
}
use icn_nodus.Agent.{
  has_vlan, has_direct, logical_of, direct_provider_of, create_vlan_network, create_direct_network,
  delete_network, in_sync_vlan, in_sync_direct,
}

-- The agent is in sync and keeps no message.
abbrev pub IsSettled : AgentState → Type 0
IsSettled agent = (agent.synced ≡ true) × (agent.store ≡ [])

on_create-IsSettled :
    (agent : AgentState) (msg : Message) → IsSettled agent → Returns IsSettled (on_create agent msg)
unfolding on_create
on_create-IsSettled agent msg (s, e) = rw s (
    Returns-if (has_vlan msg) _ _
      (Returns-rest (attempt (create_vlan_network msg)) _ λ _. Returns-pure _ (refl, e))
      (Returns-if (has_direct msg) _ _
        (Returns-rest (attempt (create_direct_network msg)) _ λ _. Returns-pure _ (refl, e))
        (Returns-pure _ (refl, e))))

on_remove-IsSettled :
    (agent : AgentState) (msg : Message) → IsSettled agent → Returns IsSettled (on_remove agent msg)
unfolding on_remove
on_remove-IsSettled agent msg (s, e) = rw s (
    Returns-rest (if is_blank (logical_of msg) then pure tt else delete_network msg) _ λ _.
      Returns-rest (if is_blank (direct_provider_of msg) then pure tt else delete_network msg) _
        λ _. Returns-pure _ (refl, e))

abbrev pub Settles : Run AgentState → Type 0
Settles (done agent w) = IsSettled agent
Settles (fail e w) = ⊥
Settles (crash w) = Unit {0}

of_run :
    (r : Run AgentState)
    → NoError r
    → ((a : AgentState) (v : World) → r ≡ done a v → IsSettled a)
    → Settles r
of_run (done a w) n h = h a w refl
of_run (fail e w) n h = n
of_run (crash w) n h = tt

module _ (clients : NodeClients) where
  on_sync-IsSettled :
      (agent : AgentState) (ip mac ipv6 : String)
      → Returns IsSettled (on_sync clients agent ip mac ipv6)
  unfolding on_sync
  on_sync-IsSettled agent ip mac ipv6 = Returns-rest (in_sync_vlan agent.store) _ λ _.
      Returns-rest (in_sync_direct agent.store) _ λ _.
        Returns-rest
          (if (not (is_blank ip) || not (is_blank ipv6)) && not (is_blank mac)
            then (attempt (create_node_port clients ip mac ipv6) >>= λ _. pure tt)
            else pure tt)
          _ λ _. Returns-pure _ (refl, refl)

  handle_notif-IsSettled :
      (agent : AgentState) (msg : Message)
      → IsSettled agent
      → Returns IsSettled (handle_notif clients agent msg)
  unfolding handle_notif
  handle_notif-IsSettled agent (vlan_create name id provider logical) h =
      on_create-IsSettled agent _ h
  handle_notif-IsSettled agent (direct_create name provider) h = on_create-IsSettled agent _ h
  handle_notif-IsSettled agent (vlan_remove name logical) h = on_remove-IsSettled agent _ h
  handle_notif-IsSettled agent (direct_remove name provider) h = on_remove-IsSettled agent _ h
  handle_notif-IsSettled agent (route_insert id routes) h =
      Returns-rest (attempt (clients.pid_of id >>= λ pid. container_add_route pid routes)) _
        λ _. Returns-pure agent h
  handle_notif-IsSettled agent (route_remove id routes) h =
      Returns-rest (attempt (clients.pid_of id >>= λ pid. container_del_route pid routes)) _
        λ _. Returns-pure agent h
  handle_notif-IsSettled agent (pod_add_network id ns name conf routes) h =
      Returns-rest (attempt (add_network clients id ns name conf routes)) _
        λ _. Returns-pure agent h
  handle_notif-IsSettled agent (pod_del_network id ns name conf routes) h =
      Returns-rest (attempt (del_network clients id ns name conf routes)) _
        λ _. Returns-pure agent h
  handle_notif-IsSettled agent (in_sync ip mac ipv6) h = on_sync-IsSettled agent ip mac ipv6
  handle_notif-IsSettled agent nothing h = Returns-pure agent h

  handle_rest-IsSettled :
      (agent : AgentState) (msgs : List Message)
      → IsSettled agent
      → Returns IsSettled (handle_all clients agent msgs)
  unfolding handle_all
  handle_rest-IsSettled agent [] h = Returns-pure agent h
  handle_rest-IsSettled agent (msg ∷ msgs) h =
      Returns-bind (handle_notif clients agent msg) _ (handle_notif-IsSettled agent msg h)
        λ next k. handle_rest-IsSettled next msgs k

  handle_sync-IsSettled :
      (agent : AgentState) (before behind : List Message) (ip mac ipv6 : String)
      → Returns IsSettled (handle_all clients agent (before ++ in_sync ip mac ipv6 ∷ behind))
  unfolding handle_all handle_notif
  handle_sync-IsSettled agent [] behind ip mac ipv6 =
      Returns-bind (handle_notif clients agent (in_sync ip mac ipv6)) _
        (on_sync-IsSettled agent ip mac ipv6) λ next k. handle_rest-IsSettled next behind k
  handle_sync-IsSettled agent (msg ∷ before) behind ip mac ipv6 =
      Returns-rest (handle_notif clients agent msg) _
        λ next. handle_sync-IsSettled next before behind ip mac ipv6

  -- Behind messages with an InSync among them the agent is in sync and keeps no message, whatever its
  -- state was before, whatever the other messages are and whatever fails on the node: no error ends the
  -- handling of the messages, only a panic does.
  pub handle_all-Settles :
      (agent : AgentState) (before behind : List Message) (ip mac ipv6 : String) (env : Env)
      (w : World)
      → Settles (handle_all clients agent (before ++ in_sync ip mac ipv6 ∷ behind) env w)
  handle_all-Settles agent before behind ip mac ipv6 env w =
      let msgs = before ++ in_sync ip mac ipv6 ∷ behind in
      of_run (handle_all clients agent msgs env w) ((all-NeverFails clients agent msgs).ends env w)
        λ a v. (handle_sync-IsSettled agent before behind ip mac ipv6).holds env w v a
