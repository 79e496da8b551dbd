-- ===== src/Agent/Handling.antt =====
-- cmd/nfn-agent/nfn-agent.go: what the agent of a node does with the messages of the operator. The start of
-- the program and its shut-down are not modelled.
use icn_nodus.Common.{
  if◌then◌else◌, is_blank, trim, trim_space, ℕ, String, Bool, true, not, ◌&&◌, ◌||◌, List, [], ◌∷◌,
  ◌++◌,
}
use icn_nodus.Api.{Route}
use icn_nodus.Api.Messages.{
  Message, nothing, vlan_create, direct_create, vlan_remove, direct_remove, route_insert,
  route_remove, pod_add_network, pod_del_network, in_sync,
}
use icn_nodus.Effect.{M, ◌>>=◌, ◌>>◌, pure, attempt, ask}
use icn_nodus.Chain.Containers.{container_add_route, container_del_route}
use icn_nodus.Agent.{
  has_vlan, has_direct, logical_of, direct_provider_of, create_vlan_network, create_direct_network,
  delete_network, in_sync_vlan, in_sync_direct,
}

-- The variables pnCreateStore and inSync of the process.
pub record AgentState : Type 0 where
  pub store : List Message
  pub synced : Bool

-- What the agent uses of the container runtime (criclient.CRIClient) and of the CNI server: the process
-- of a container, the interfaces of a pod (by process, pod and network), and the node's own port.
pub record NodeClients : Type 0 where
  pub pid_of : String → M ℕ
  pub add_interface : ℕ → String → String → String → M (Unit {0})
  pub del_interface : ℕ → String → String → String → M (Unit {0})
  pub create_port : String → String → String → String → M (Unit {0})

-- The case of a message that creates a provider network.
unfoldable pub on_create : AgentState → Message → M AgentState
on_create agent msg =
    if not agent.synced
    then pure (record agent { store = agent.store ++ msg ∷ [] })
    else if has_vlan msg
    then (attempt (create_vlan_network msg) >>= λ _. pure agent)
    else if has_direct msg
    then (attempt (create_direct_network msg) >>= λ _. pure agent)
    else pure agent

unfoldable pub on_remove : AgentState → Message → M AgentState
on_remove agent msg = if not agent.synced then pure agent else (do
  if is_blank (logical_of msg) then pure tt else delete_network msg
  if is_blank (direct_provider_of msg) then pure tt else delete_network msg
  pure agent)

-- strings.Trim(strings.TrimSpace(s), "\"")
abbrev unquoted : String → String
unquoted s = trim b'"' (trim_space s)

module _ (clients : NodeClients) where
  -- createNodeOVSInternalPort
  unfoldable pub create_node_port : String → String → String → M (Unit {0})
  create_node_port ip mac ipv6 = do
    node_name ← ask (λ env _. env.getenv "NFN_NODE_NAME")
    clients.create_port (unquoted ip) (unquoted ipv6) (unquoted mac) node_name

  -- The case of the message InSync.
  unfoldable pub on_sync : AgentState → String → String → String → M AgentState
  on_sync agent ip mac ipv6 = do
    in_sync_vlan agent.store
    in_sync_direct agent.store
    if (not (is_blank ip) || not (is_blank ipv6)) && not (is_blank mac)
        then (attempt (create_node_port ip mac ipv6) >>= λ _. pure tt)
        else pure tt
    pure (record { store = []; synced = true })

  unfoldable pub add_network : String → String → String → String → List Route → M (Unit {0})
  add_network id ns name conf routes = do
    pid ← clients.pid_of id
    clients.add_interface pid ns name conf
    container_add_route pid routes

  unfoldable pub del_network : String → String → String → String → List Route → M (Unit {0})
  del_network id ns name conf routes = do
    pid ← clients.pid_of id
    container_del_route pid routes
    clients.del_interface pid ns name conf

  -- handleNotif: each error ends the message and is dropped
  unfoldable pub handle_notif : AgentState → Message → M AgentState
  handle_notif agent (vlan_create name id provider logical) =
      on_create agent (vlan_create name id provider logical)
  handle_notif agent (direct_create name provider) = on_create agent (direct_create name provider)
  handle_notif agent (vlan_remove name logical) = on_remove agent (vlan_remove name logical)
  handle_notif agent (direct_remove name provider) = on_remove agent (direct_remove name provider)
  handle_notif agent (route_insert id routes) =
      attempt (clients.pid_of id >>= λ pid. container_add_route pid routes) >>= λ _. pure agent
  handle_notif agent (route_remove id routes) =
      attempt (clients.pid_of id >>= λ pid. container_del_route pid routes) >>= λ _. pure agent
  handle_notif agent (pod_add_network id ns name conf routes) =
      attempt (add_network id ns name conf routes) >>= λ _. pure agent
  handle_notif agent (pod_del_network id ns name conf routes) =
      attempt (del_network id ns name conf routes) >>= λ _. pure agent
  handle_notif agent (in_sync ip mac ipv6) = on_sync agent ip mac ipv6
  handle_notif agent nothing = pure agent

  -- The loop of subscribeNotif, over the messages that the stream gives before it is closed.
  unfoldable pub handle_all : AgentState → List Message → M AgentState
  handle_all agent [] = pure agent
  handle_all agent (msg ∷ msgs) = handle_notif agent msg >>= λ next. handle_all next msgs
