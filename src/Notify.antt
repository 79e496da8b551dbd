-- ===== src/Notify.antt =====
-- internal/pkg/nfnNotify/server.go: the server that tells the agents of the nodes about provider networks,
-- routes and pods. The map of the connected agents is `agents` of the world. The start of the server is
-- not modelled.
pub mod Delivery
pub mod Broadcast
pub mod Agents
pub mod Subscribing
use Prim.Native.String
use icn_nodus.Common.{
  if◌then◌else◌, is_blank, join_comma, any, String, Bool, not, ◌&&◌, List, [], ◌∷◌, ◌++◌, ◌==◌,
}
use icn_nodus.Api.{
  Route, ProviderNetwork, RoutingInfo, PodNetworkInfo, provider_network, created, is_empty_route,
}
use icn_nodus.Api.Cluster.{nodes_by_label, list_provider_networks}
use icn_nodus.Api.Messages.{
  Message, nothing, vlan_create, direct_create, vlan_remove, direct_remove, route_insert,
  route_remove, pod_add_network, pod_del_network, in_sync,
}
use icn_nodus.Effect.{
  message, Result, ok, err, update_object, message_sent, done, M, ◌>>=◌, ◌>>◌, pure, raise, panic,
  attempt, try, ask,
}
use icn_nodus.Effect.Requests.{request}
use icn_nodus.Controller.{write}
use icn_nodus.Ovn.Network.{get_ovn_controller}
use icn_nodus.Ovn.Ports.{add_node_logical_ports}

abbrev pub is_member : List String → String → Bool
is_member names name = any (λ n. n == name) names

-- clientList[name] = client
unfoldable pub register : String → M (Unit {0})
register name env w =
    done tt
      (record w { agents = if is_member w.agents name then w.agents else w.agents ++ name ∷ [] })

-- stream.Send
unfoldable pub send : String → Message → M (Unit {0})
send name msg = write (message_sent name msg)

-- GetClient and Send: a node without an agent has no stream
unfoldable pub send_to : String → Message → M (Unit {0})
send_to name msg env w = if is_member w.agents name then send name msg env w else done tt w

-- `nodeReq != "" && nodeReq != name`
abbrev pub is_other : String → String → Bool
is_other node_req name = not (is_blank node_req) && not (node_req == name)

-- The loop of sendMsg for "all": an error is only logged.
unfoldable pub send_all : Message → String → List String → M (Unit {0})
send_all msg node_req [] = pure tt
send_all msg node_req (name ∷ names) =
    let rest = send_all msg node_req names in
    if is_other node_req name then rest else (attempt (send name msg) >>= λ _. rest)

-- The loop for "any": the first agent decides.
unfoldable pub send_any : Message → List String → M (Unit {0})
send_any msg [] = pure tt
send_any msg (name ∷ names) = send name msg

-- The loop over the nodes of nodeListIterator.
unfoldable pub send_nodes : Message → String → List String → M (Unit {0})
send_nodes msg node_req [] = pure tt
send_nodes msg node_req (name ∷ names) =
    let rest = send_nodes msg node_req names in
    if is_other node_req name then rest else (send_to name msg >> rest)

-- Where the nodes are not listed, the loop waits on a channel that is nil and never ends, which is a run
-- that does not return.
abbrev pub listed_nodes : Message → String → Result (List String) → M (Unit {0})
listed_nodes msg node_req (ok names) = send_nodes msg node_req names
listed_nodes msg node_req (err e) = panic

-- sendMsg
unfoldable pub send_msg : Message → String → String → String → M (Unit {0})
send_msg msg labels option node_req env w =
    let names = env.agents_ranged w.trace w.agents in
    (if option == "all"
        then send_all msg node_req names
        else if option == "any"
        then send_any msg names
        else (try (request (nodes_by_label labels)) >>= listed_nodes msg node_req))
      env w

-- The messages of a provider network; any other type of notification leaves the message unset.
unfoldable pub vlan_msg : ProviderNetwork → String → Message
vlan_msg pn msg_type =
    if msg_type == "create"
    then vlan_create pn.name pn.vlan.vlan_id pn.vlan.provider_interface_name
        pn.vlan.logical_interface_name
    else if msg_type == "delete"
    then vlan_remove pn.name pn.vlan.logical_interface_name
    else nothing

unfoldable pub direct_msg : ProviderNetwork → String → Message
direct_msg pn msg_type =
    if msg_type == "create"
    then direct_create pn.name pn.direct.provider_interface_name
    else if msg_type == "delete"
    then direct_remove pn.name pn.direct.provider_interface_name
    else nothing

-- updatePnStatus, through the other client of provider networks
unfoldable pub update_pn_status : ProviderNetwork → String → M (Unit {0})
update_pn_status pn status = write (update_object (provider_network (record pn { state = status })))

-- For a selector "any": a network that is created already is sent to nobody, and an error of the update
-- is dropped.
unfoldable pub send_to_any : ProviderNetwork → Message → String → M (Unit {0})
send_to_any pn msg node_req =
    if pn.state == created
    then pure tt
    else (do send_msg msg "" "any" node_req; _ ← attempt (update_pn_status pn created); pure tt)

-- The nodes that the selector names. The test of the labels' syntax never fails.
unfoldable pub send_selected :
    ProviderNetwork → Message → String → List String → String → M (Unit {0})
send_selected pn msg selector labels node_req = do
  fold ← ask (λ env _. env.equal_fold)
  if fold selector "SPECIFIC"
      then send_msg msg (join_comma labels) "specific" node_req
      else if fold selector "ALL"
      then send_msg msg "" "all" node_req
      else if fold selector "ANY"
      then send_to_any pn msg node_req
      else pure tt

-- SendNotif
unfoldable pub send_notif : ProviderNetwork → String → String → M (Unit {0})
send_notif pn msg_type node_req =
    if pn.cni_type == "ovn4nfv"
    then (if pn.provider_net_type == "VLAN"
        then send_selected pn (vlan_msg pn msg_type) pn.vlan.node_selector pn.vlan.node_label_list
            node_req
        else if pn.provider_net_type == "DIRECT"
        then send_selected pn (direct_msg pn msg_type) pn.direct.node_selector
            pn.direct.node_label_list node_req
        else raise (message "Unsupported Provider Network type"))
    else raise (message "Unsupported CNI type")

-- The routes that are not empty.
unfoldable pub set_routes : List Route → List Route
set_routes [] = []
set_routes (d ∷ ds) = let rest = set_routes ds in if is_empty_route d then rest else d ∷ rest

unfoldable pub routes_of : RoutingInfo → List Route
routes_of r = r.left_network_route ++ (r.right_network_route ++ set_routes r.dynamic_network_routes)

-- The message of a round, which is kept from the round before where the type does not fit.
abbrev pub kept_unless : Bool → Message → Message → Message
kept_unless fits msg old = if fits then msg else old

-- The loop of SendRouteNotif and, for a deletion, of SendDeleteRouteNotif, with the message so far.
unfoldable pub send_routes :
    (String → List Route → Message) → Bool → Message → List RoutingInfo → M (Unit {0})
send_routes make fits old [] = pure tt
send_routes make fits old (r ∷ rs) = do
  let msg = kept_unless fits (make r.id (routes_of r)) old
  send_to r.node msg
  send_routes make fits msg rs

unfoldable pub send_route_notif : List RoutingInfo → String → M (Unit {0})
send_route_notif infos msg_type = send_routes route_insert (msg_type == "create") nothing infos

unfoldable pub send_delete_route_notif : List RoutingInfo → String → M (Unit {0})
send_delete_route_notif infos msg_type =
    send_routes route_remove (msg_type == "delete") nothing infos

-- The loop of SendPodNetworkNotif and of SendDeletePodNetworkNotif.
unfoldable pub send_pods :
    (String → String → String → String → List Route → Message)
    → Bool
    → Message
    → List PodNetworkInfo
    → M (Unit {0})
send_pods make fits old [] = pure tt
send_pods make fits old (p ∷ ps) = do
  let msg = kept_unless fits (make p.id p.namespace p.name p.network_info (set_routes p.route)) old
  send_to p.node msg
  send_pods make fits msg ps

unfoldable pub send_pod_network_notif : List PodNetworkInfo → String → M (Unit {0})
send_pod_network_notif pods msg_type = send_pods pod_add_network (msg_type == "create") nothing pods

unfoldable pub send_delete_pod_network_notif : List PodNetworkInfo → String → M (Unit {0})
send_delete_pod_network_notif pods msg_type =
    send_pods pod_del_network (msg_type == "delete") nothing pods

-- The provider networks that a new agent is told of; each error is dropped.
unfoldable pub send_each : String → List ProviderNetwork → M (Unit {0})
send_each name [] = pure tt
send_each name (pn ∷ pns) = do _ ← attempt (send_notif pn "create" name); send_each name pns

abbrev pub listed_networks : String → Result (List ProviderNetwork) → M (Unit {0})
listed_networks name (ok pns) = send_each name pns
listed_networks name (err e) = pure tt

-- Subscribe, up to the wait that keeps the stream open
unfoldable pub subscribe : String → M (Unit {0})
subscribe name = do
  if is_blank name then raise (message "Node name can't be empty") else pure tt
  get_ovn_controller
  addresses ← add_node_logical_ports name
  register name
  pns ← try (request list_provider_networks)
  listed_networks name pns
  _ ← attempt (send name (in_sync addresses.ip addresses.mac addresses.ipv6))
  pure tt
