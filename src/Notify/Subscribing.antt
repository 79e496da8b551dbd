-- ===== src/Notify/Subscribing.antt =====
-- internal/pkg/nfnNotify/server.go: what an agent has got when its subscription is complete.
use icn_nodus.Common.{
  if◌then◌else◌, Bool-cases, is_blank, String, ◌≡◌, refl, sym, ap, ◌∙◌, inl, inr, Bool, true, false,
  ◌||◌, List, [], ◌∷◌, ◌++◌, ◌==◌, eq_refl,
}
use icn_nodus.Effect.{
  Result, Event, message_sent, Env, World, done, ◌>>=◌, pure, raise, attempt, try,
}
use icn_nodus.Api.{ProviderNetwork}
use icn_nodus.Api.Messages.{Message, in_sync}
use icn_nodus.Effect.Requests.{request}
use icn_nodus.Api.Cluster.{list_provider_networks}
use icn_nodus.Notify.Broadcast.{send-attempt}
use icn_nodus.Ovn.Ports.{NodeAddresses, add_node_logical_ports}
use icn_nodus.Ovn.Network.{get_ovn_controller}
use icn_nodus.Notify.{is_member, register, send, listed_networks, subscribe}
use icn_nodus.Effect.Inverse.{>>=-eq-done, done-eq-done}
use icn_nodus.Notify.Agents.{
  KeepsAgents-try, request-KeepsAgents, listed_networks-KeepsAgents, agents-done,
}
use icn_nodus.Controller.Writing.{logged}

is_member-append :
    (names : List String) (name : String) → is_member (names ++ name ∷ []) name ≡ true
is_member-append [] name = rw (eq_refl name) refl
is_member-append (n ∷ names) name =
    ap (λ b. (n == name) || b) (is_member-append names name) ∙ or_true (n == name)
  where
    or_true : (b : Bool) → (b || true) ≡ true
    or_true true = refl
    or_true false = refl

is_member-registered :
    (names : List String) (name : String)
    → is_member (if is_member names name then names else names ++ name ∷ []) name ≡ true
is_member-registered names name = elim (Bool-cases (is_member names name)) [
  | inl e ↦ rw (e, e) refl
  | inr e ↦ rw e (is_member-append names name)
]

-- The agent is connected, and the last call tells it the addresses of its node's port.
pub record InSync (name : String) (env : Env) (v : World) : Type 0 where
  pub connected : is_member v.agents name ≡ true
  pub addresses : NodeAddresses
  pub start : World
  pub ports : World
  pub added : add_node_logical_ports name env start ≡ done addresses ports
  pub before : List Event
  pub last :
      v.trace ≡ message_sent name (in_sync addresses.ip addresses.mac addresses.ipv6) ∷ before

-- The end of a subscription, from the entry into the map on.
ended-InSync :
    (name : String) (addresses : NodeAddresses) (pns : Result (List ProviderNetwork)) (env : Env)
    (start w3 w4 w5 w6 v : World)
    → add_node_logical_ports name env start ≡ done addresses w3
    → w4.agents ≡ (if is_member w3.agents name then w3.agents else w3.agents ++ name ∷ [])
    → try (request list_provider_networks) env w4 ≡ done pns w5
    → listed_networks name pns env w5 ≡ done tt w6
    → v ≡ logged (message_sent name (in_sync addresses.ip addresses.mac addresses.ipv6)) w6
    → InSync name env v
ended-InSync name addresses pns env start w3 w4 w5 w6 v added entered listed told last = record {
  connected =
      ap (λ names. is_member names name)
        (ap (λ (x : World). x.agents) last
          ∙ agents-done (listed_networks name pns) env w5 w6 tt
              (listed_networks-KeepsAgents name pns) told
          ∙ agents-done (try (request list_provider_networks)) env w4 w5 pns
              (KeepsAgents-try _ (request-KeepsAgents list_provider_networks)) listed
          ∙ entered)
      ∙ is_member-registered w3.agents name;
  addresses = addresses;
  start = start;
  ports = w3;
  added = added;
  before = w6.trace;
  last = ap (λ (x : World). x.trace) last;
}

register-agents :
    (name : String) (env : Env) (w v : World)
    → register name env w ≡ done tt v
    → v.agents ≡ (if is_member w.agents name then w.agents else w.agents ++ name ∷ [])
unfolding register
register-agents name env w v h = ap (λ (x : World). x.agents) (sym (done-eq-done h).1)

in_sync-last :
    (name : String) (msg : Message) (env : Env) (w v : World)
    → (attempt (send name msg) >>= λ _. pure tt) env w ≡ done tt v
    → v ≡ logged (message_sent name msg) w
unfolding pure
in_sync-last name msg env w v h =
    let (o, u, p, q) = >>=-eq-done (attempt (send name msg)) _ env w tt v h in
    sym (done-eq-done q).1 ∙ sym (done-eq-done (sym (send-attempt name msg env w) ∙ p)).1

-- If the subscription of an agent gets as far as the loop that keeps its stream open, then the agent is
-- in the map, the ports of its node were added, and the last call is the message with the addresses
-- that these ports got, whatever became of the messages before it.
pub subscribe-InSync :
    (name : String) (env : Env) (w v : World) → subscribe name env w ≡ done tt v → InSync name env v
unfolding subscribe
subscribe-InSync name env w v h =
    let (_, w1, p1, q1) = >>=-eq-done (if is_blank name then raise _ else pure tt) _ env w tt v h in
    let (_, w2, p2, q2) = >>=-eq-done get_ovn_controller _ env w1 tt v q1 in
    let (addresses, w3, p3, q3) = >>=-eq-done (add_node_logical_ports name) _ env w2 tt v q2 in
    let (_, w4, p4, q4) = >>=-eq-done (register name) _ env w3 tt v q3 in
    let (pns, w5, p5, q5) = >>=-eq-done (try (request list_provider_networks)) _ env w4 tt v q4 in
    let (_, w6, p6, q6) = >>=-eq-done (listed_networks name pns) _ env w5 tt v q5 in
    ended-InSync name addresses pns env w2 w3 w4 w5 w6 v p3 (register-agents name env w3 w4 p4) p5
      p6 (in_sync-last name _ env w6 v q6)
