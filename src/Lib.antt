-- ===== src/Lib.antt =====
-- Nodus: the controller that turns Kubernetes pods, networks and network policies into OVN objects.
--
-- The program's parts, and the files that model them:
--   Effect      Go's calls, errors and panics as an explicit monad: `Env` answers for processes, the
--               cluster and Go's libraries, `World` keeps the history of calls and the controller's
--               cache. `done`, `fail` and `crash` are a returned value, a returned error, a panic.
--               Emits, Ensures, Inverse, Sequence and Total reason about what a run has called.
--   Api         pkg/apis/k8s/v1alpha1: the custom resources, and maps as association lists.
--   Ovn.Exec    internal/pkg/ovn/utils.go: ovn-nbctl, ip and ovs-vsctl, with the retries.
--   Ovn.Acl     internal/pkg/ovn/acl.go; Ovn.PortGroup: internal/pkg/ovn/port_group.go.
--   Ovn.Switch  internal/pkg/ovn/common.go: logical switches, the router, addresses.
--   Ovn.Bridge, Ovn.PodAddress
--               internal/pkg/ovn/common.go: VLAN interfaces, provider bridges, the address of a pod.
--   Ovn.Network, Ovn.Gateway, Ovn.Ports, Ovn.Interfaces, Ovn.Removal
--               internal/pkg/ovn/ovn.go: networks, gateways, and the ports of nodes and pods.
--   Pool        internal/pkg/network/pool.go: which virtual network a namespace is given.
--   Controller  pkg/controller/network, pkg/controller/providernetwork, pkg/controller/pod,
--               pkg/controller/networkchaining and pkg/utils: the reconcilers.
--   Iface       internal/pkg/network/iface.go: routes and addresses of a network namespace.
--   Kube        internal/pkg/kube/kube.go: annotations of pods, and the networks of the cluster.
--   Chain       internal/pkg/utils/chain.go: service function chains. Chain.Waiting waits for pods,
--               Chain.Networks reads the networks that labels select, Chain.Attach adds a network to a
--               pod, Chain.Selectors finds the pods of a side, Chain.Neighbours has the routes of one
--               function, Chain.Calculation those of a chain, Chain.Matching the chain of a new pod, and
--               Chain.Containers the routes in a container.
--   Notify      internal/pkg/nfnNotify/server.go: the agents that are connected, and what they are sent;
--               the payloads of internal/pkg/nfnNotify/proto are Api.Messages.
--   Agent       cmd/nfn-agent/nfn-agent.go: the provider networks of a node; Agent.Handling what its agent
--               does with a message, given the container runtime and the CNI server as a record.
--   Cni         internal/pkg/cniserver/cni.go: the interfaces of a pod, which of them has a default
--               gateway, and the result; app.ConfigureInterface is an operation of a record.
--   Subnet      internal/pkg/network/subnet.go: the configured network cut into virtual networks.
--   Policy      pkg/controller/networkpolicy/networkpolicy_controller.go: Policy has the data and the
--               texts, Policy.Acls the function addACLs, Policy.Handlers the events.
--   Ovn         internal/pkg/ovn, with a module for each part.
--   Examples    inputs and runs at concrete data.
--
-- A function of the source has the same name in snake case; a method is a function of its receiver's
-- parts, and a loop is a function by recursion on the list it ranges over. The policy controller and the
-- pod controller call the functions of Ovn, which call Ovn.Exec; AddLogicalPorts calls Pool. A call of
-- ovn-nbctl is one event of the history whatever number of attempts it took; an answer of the environment
-- may depend on the whole history. The retries of a command are recursion on the number of retries left
-- (200), and the wait for a port's addresses recursion on the number of polls left (30), as in the source.
-- Decimal texts and the bytes of an address are made by recursion on fuel of one more than the number,
-- which is enough since each round divides by ten or by 256. The loop over virtual networks has fuel for
-- as many rounds as there are addresses. The loops of the chains that wait for a pod have no bound in the
-- source: `Env` says how many rounds run before the process is stopped, and a loop that is stopped does not
-- return, nor does the loop of sendMsg where the nodes are not listed. A request to the cluster, the
-- kernel or the container runtime is a value of `Request`, which `Env` answers. The chain controller calls Chain, which calls Ovn.PodAddress, Pool and Kube, and tells the
-- agents by Notify; the agents that are connected are part of `World`.
--
-- Not modelled: goroutines and locks (a handler runs alone), log texts, JSON (the data is decoded), the
-- start of the notification server, the delay between retries, the texts that errors are wrapped in on their way, generated code, the HTTP
-- server and the netlink calls of the CNI plug-in, the start of the node agent and the container runtimes.
-- The parsing and printing of addresses, the random draws, hashes and lower-casing are library code: they
-- are fields of `Env`.
pub mod Common
pub mod Api
pub mod Effect
pub mod Ovn
pub mod Policy
pub mod Iface
pub mod Kube
pub mod Chain
pub mod Notify
pub mod Agent
pub mod Cni
pub mod Pool
pub mod Subnet
pub mod Controller
pub mod Examples
