-- ===== src/Notify/Agents.antt =====
-- internal/pkg/nfnNotify/server.go: a run that sends messages leaves the map of agents as it is.
use icn_nodus.Common.{
  if◌then◌else◌, String, ◌≡◌, refl, sym, ap, ◌∙◌, Bool, true, false, Option, none, some, List, [],
  ◌∷◌, ◌==◌,
}
use icn_nodus.Effect.{
  Error, Result, ok, err, Event, message_sent, Env, World, Run, done, fail, crash, M, continue,
  ◌>>=◌, pure, raise, panic, check, error_of, attempt, result_of, try, ask, of_result, log,
}
use icn_nodus.Effect.Emits.{world_of}
use icn_nodus.Api.{ProviderNetwork}
use icn_nodus.Api.Messages.{Message}
use icn_nodus.Effect.Requests.{request}
use icn_nodus.Controller.{write}
use icn_nodus.Api.Cluster.{Request, nodes_by_label}
use icn_nodus.Notify.{
  is_member, send, send_to, send_all, send_any, send_nodes, listed_nodes, send_msg,
  update_pn_status, send_to_any, send_selected, send_notif, send_each, listed_networks,
}

-- The run connects and disconnects no agent.
pub record KeepsAgents {A : Type 0} (m : M A) : Type 0 where
  pub kept : (env : Env) (w : World) → (world_of (m env w)).agents ≡ w.agents

module _ {A B : Type 0} where
  behind_run :
      (f : A → M B) (h : (a : A) → KeepsAgents (f a)) (env : Env) (names : List String) (r : Run A)
      → (world_of r).agents ≡ names
      → (world_of (continue r f env)).agents ≡ names
  behind_run f h env names (done a w) x = (h a).kept env w ∙ x
  behind_run f h env names (fail e w) x = x
  behind_run f h env names (crash w) x = x

  KeepsAgents-bind :
      (m : M A) (f : A → M B)
      → KeepsAgents m
      → ((a : A) → KeepsAgents (f a))
      → KeepsAgents (m >>= f)
  unfolding ◌>>=◌
  KeepsAgents-bind m f hm hf = record {
    kept = λ env w. behind_run f hf env w.agents (m env w) (hm.kept env w);
  }

module _ {A : Type 0} where
  KeepsAgents-if :
      (b : Bool) (m n : M A) → KeepsAgents m → KeepsAgents n → KeepsAgents (if b then m else n)
  KeepsAgents-if true m n hm hn = hm
  KeepsAgents-if false m n hm hn = hn

  KeepsAgents-pure : (a : A) → KeepsAgents (pure a)
  unfolding pure
  KeepsAgents-pure a = record { kept = λ env w. refl }

  KeepsAgents-raise : (e : Error) → KeepsAgents (raise {A = A} e)
  unfolding raise
  KeepsAgents-raise e = record { kept = λ env w. refl }

  KeepsAgents-panic : KeepsAgents (panic {A = A})
  unfolding panic
  KeepsAgents-panic = record { kept = λ env w. refl }

  KeepsAgents-ask : (f : Env → List Event → A) → KeepsAgents (ask f)
  unfolding ask
  KeepsAgents-ask f = record { kept = λ env w. refl }

  KeepsAgents-of_result : (r : Result A) → KeepsAgents (of_result r)
  unfolding of_result
  KeepsAgents-of_result (ok a) = record { kept = λ env w. refl }
  KeepsAgents-of_result (err e) = record { kept = λ env w. refl }

  agents-error_of : (r : Run A) → (world_of (error_of r)).agents ≡ (world_of r).agents
  agents-error_of (done a w) = refl
  agents-error_of (fail e w) = refl
  agents-error_of (crash w) = refl

  agents-result_of : (r : Run A) → (world_of (result_of r)).agents ≡ (world_of r).agents
  agents-result_of (done a w) = refl
  agents-result_of (fail e w) = refl
  agents-result_of (crash w) = refl

  KeepsAgents-attempt : (m : M A) → KeepsAgents m → KeepsAgents (attempt m)
  unfolding attempt
  KeepsAgents-attempt m h = record { kept = λ env w. agents-error_of (m env w) ∙ h.kept env w }

  pub KeepsAgents-try : (m : M A) → KeepsAgents m → KeepsAgents (try m)
  unfolding try
  KeepsAgents-try m h = record { kept = λ env w. agents-result_of (m env w) ∙ h.kept env w }

KeepsAgents-check : (o : Option Error) → KeepsAgents (check o)
unfolding check
KeepsAgents-check none = record { kept = λ env w. refl }
KeepsAgents-check (some e) = record { kept = λ env w. refl }

KeepsAgents-log : (e : Event) → KeepsAgents (log e)
unfolding log
KeepsAgents-log e = record { kept = λ env w. refl }

ruleset keeps_rules = (
  KeepsAgents-bind, KeepsAgents-if, KeepsAgents-pure, KeepsAgents-raise, KeepsAgents-panic,
  KeepsAgents-ask, KeepsAgents-of_result, KeepsAgents-attempt, KeepsAgents-try, KeepsAgents-check,
  KeepsAgents-log,
)

pub request-KeepsAgents : (r : Request) → KeepsAgents (request r)
unfolding request
request-KeepsAgents r = search keeps_rules

write-KeepsAgents : (e : Event) → KeepsAgents (write e)
unfolding write
write-KeepsAgents e = search keeps_rules

send-KeepsAgents : (name : String) (msg : Message) → KeepsAgents (send name msg)
unfolding send
send-KeepsAgents name msg = write-KeepsAgents (message_sent name msg)

send_to-KeepsAgents : (name : String) (msg : Message) → KeepsAgents (send_to name msg)
unfolding send_to
send_to-KeepsAgents name msg = record { kept = λ env w. to (is_member w.agents name) env w }
  where
    to :
        (connected : Bool) (env : Env) (w : World)
        → (world_of (if connected then send name msg env w else done tt w)).agents ≡ w.agents
    to true env w = (send-KeepsAgents name msg).kept env w
    to false env w = refl

send_all-KeepsAgents :
    (msg : Message) (req : String) (names : List String) → KeepsAgents (send_all msg req names)
unfolding send_all
send_all-KeepsAgents msg req [] = KeepsAgents-pure tt
send_all-KeepsAgents msg req (name ∷ names) =
    let rest = send_all-KeepsAgents msg req names in
    KeepsAgents-if _ _ _ rest
      (KeepsAgents-bind _ _ (KeepsAgents-attempt _ (send-KeepsAgents name msg)) λ _. rest)

send_any-KeepsAgents : (msg : Message) (names : List String) → KeepsAgents (send_any msg names)
unfolding send_any
send_any-KeepsAgents msg [] = KeepsAgents-pure tt
send_any-KeepsAgents msg (name ∷ names) = send-KeepsAgents name msg

send_nodes-KeepsAgents :
    (msg : Message) (req : String) (names : List String) → KeepsAgents (send_nodes msg req names)
unfolding send_nodes
send_nodes-KeepsAgents msg req [] = KeepsAgents-pure tt
send_nodes-KeepsAgents msg req (name ∷ names) =
    let rest = send_nodes-KeepsAgents msg req names in
    KeepsAgents-if _ _ _ rest (KeepsAgents-bind _ _ (send_to-KeepsAgents name msg) λ _. rest)

listed_nodes-KeepsAgents :
    (msg : Message) (req : String) (r : Result (List String)) → KeepsAgents (listed_nodes msg req r)
listed_nodes-KeepsAgents msg req (ok names) = send_nodes-KeepsAgents msg req names
listed_nodes-KeepsAgents msg req (err e) = KeepsAgents-panic

send_msg-KeepsAgents :
    (msg : Message) (labels option req : String) → KeepsAgents (send_msg msg labels option req)
unfolding send_msg
send_msg-KeepsAgents msg labels option req = record {
  kept = λ env w.
      let names = env.agents_ranged w.trace w.agents in
      (KeepsAgents-if (option == "all") _ _ (send_all-KeepsAgents msg req names) (
          KeepsAgents-if (option == "any") _ _ (send_any-KeepsAgents msg names) (
            KeepsAgents-bind _ _ (KeepsAgents-try _ (request-KeepsAgents (nodes_by_label labels)))
              (listed_nodes-KeepsAgents msg req)))).kept
        env w;
}

ruleset send_rules = (keeps_rules, write-KeepsAgents, send_msg-KeepsAgents)

send_to_any-KeepsAgents :
    (pn : ProviderNetwork) (msg : Message) (req : String) → KeepsAgents (send_to_any pn msg req)
unfolding send_to_any update_pn_status
send_to_any-KeepsAgents pn msg req = search send_rules

send_selected-KeepsAgents :
    (pn : ProviderNetwork) (msg : Message) (selector : String) (labels : List String) (req : String)
    → KeepsAgents (send_selected pn msg selector labels req)
unfolding send_selected
send_selected-KeepsAgents pn msg selector labels req = search (send_rules, send_to_any-KeepsAgents)

send_notif-KeepsAgents :
    (pn : ProviderNetwork) (msg_type req : String) → KeepsAgents (send_notif pn msg_type req)
unfolding send_notif
send_notif-KeepsAgents pn msg_type req = search (keeps_rules, send_selected-KeepsAgents)

send_each-KeepsAgents :
    (name : String) (pns : List ProviderNetwork) → KeepsAgents (send_each name pns)
unfolding send_each
send_each-KeepsAgents name [] = KeepsAgents-pure tt
send_each-KeepsAgents name (pn ∷ pns) =
    let rest = send_each-KeepsAgents name pns in search (keeps_rules, send_notif-KeepsAgents)

pub listed_networks-KeepsAgents :
    (name : String) (r : Result (List ProviderNetwork)) → KeepsAgents (listed_networks name r)
listed_networks-KeepsAgents name (ok pns) = send_each-KeepsAgents name pns
listed_networks-KeepsAgents name (err e) = KeepsAgents-pure tt

pub agents-done :
    {A : Type 0} (m : M A) (env : Env) (w v : World) (a : A)
    → KeepsAgents m
    → m env w ≡ done a v
    → v.agents ≡ w.agents
agents-done m env w v a k h = ap (λ r. (world_of r).agents) (sym h) ∙ k.kept env w
