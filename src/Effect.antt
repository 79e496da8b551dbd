-- ===== src/Effect.antt =====
-- Go's effects as an explicit monad. A component runs against an environment `Env`, which answers
-- for the processes and services outside the program, and a world `World`, which keeps the calls
-- made so far and the controller's own mutable state. An answer may depend on all earlier calls,
-- so that an environment is any deterministic history-dependent behaviour of the outside.
pub mod Emits
pub mod Inverse
pub mod Ensures
pub mod Sequence
pub mod Total
pub mod Returns
pub mod Requests
use icn_nodus.Common.{ℕ, zero, suc, String, Bool, Option, none, some, List, [], ◌∷◌}
use icn_nodus.Api.Messages.{Message}
use icn_nodus.Api.Cluster.{Request, Reply}
use icn_nodus.Api.{
  IpSubnet, NetworkPool, Network, ProviderNetwork, NetworkChaining, Object, Labels, Pod, NetFields,
}

-- `message` is an error made by fmt.Errorf or errors.New in the program; `external` is one that a
-- library or a process returned.
pub data Error : Type 0 where
  message : String → Error
  external : String → Error

-- A Go pair of a value and an error.
pub data Result (A : Type 0) : Type 0 where
  ok : A → Result A
  err : Error → Result A

-- What running a process gives back.
pub record Output : Type 0 where
  pub stdout : String
  pub stderr : String
  pub error : Option Error

-- client.ListOptions: a label selector, if it is set, and a namespace.
pub record ListOptions : Type 0 where
  pub label_selector : Option Labels
  pub namespace : String

-- A call that left the program, in the order newest first.
pub data Event : Type 0 where
  nbctl : List String → Event
  vsctl : List String → Event
  iproute : List String → Event
  sleep : ℕ → Event
  list_pods : List ListOptions → Event
  get_pools : Event
  create_network : IpSubnet → Event
  watch_network : String → Event
  update_pools : List NetworkPool → Event
  get_object : String → Event
  update_object : Object → Event
  update_status : Object → Event
  get_pod : String → String → Event
  annotate_pod : Pod → String → String → Event
  requested : Request → Event
  -- a message on the stream of a node's agent
  message_sent : String → Message → Event

-- A parsed prefix, as net.ParseCIDR returns it: the text of the masked network with its length,
-- the text of its address alone, the address as bytes, the length of the prefix, and the text
-- of the address that was given.
pub record Cidr : Type 0 where
  pub network : String
  pub base : String
  pub bytes : List ℕ
  pub ones : ℕ
  pub address : String

pub record Env : Type 0 where
  -- the reply of attempt number k to run a process with the given arguments
  pub exec : List Event → ℕ → String → List String → Output
  pub getenv : String → String
  -- the k-th draw of `Intn(255)` from a new generator
  pub draw : List Event → ℕ → ℕ
  pub parse_cidr : String → Option Cidr
  pub parse_ip : String → Option String
  pub ip_text : List ℕ → String
  -- the answer to a listing of pods with the given options, in their order
  pub pods : List Event → List ListOptions → Result (List Pod)
  -- whether the file of virtual networks exists, or the error of os.Stat
  pub conf_exists : List Event → Result Bool
  -- the config map of network pools, decoded
  pub pools : List Event → Result (List NetworkPool)
  -- the replies to creating a Network object, to watching it (its last state), and to writing the
  -- pools back
  pub created : List Event → IpSubnet → Option Error
  pub watched : List Event → String → Result String
  pub updated : List Event → List NetworkPool → Option Error
  -- the named object, if there is one
  pub networks : List Event → String → Result (Option Network)
  pub provider_networks : List Event → String → Result (Option ProviderNetwork)
  pub chainings : List Event → String → Result (Option NetworkChaining)
  -- the pod with a name and a namespace, if there is one
  pub pod_named : List Event → String → String → Result (Option Pod)
  -- the annotation of a pod: its type, and its interfaces as far as they decode
  pub parse_networks : String → Option (String × List (Option NetFields))
  -- the reply to a call that writes an object or its status, or that sends a message
  pub written : List Event → Event → Option Error
  -- the network interfaces of the node with their aliases
  pub links : List Event → List (String × String)
  -- the order in which a map is ranged over
  pub ranged : List Event → Labels → Labels
  -- the order in which the nodes with an agent are ranged over
  pub agents_ranged : List Event → List String → List String
  -- strings.EqualFold
  pub equal_fold : String → String → Bool
  -- strings.ToLower
  pub to_lower : String → String
  -- hexadecimal sha1 of a text
  pub sha1 : String → String
  -- fnv.New64a on the bytes of a text
  pub fnv : String → ℕ
  -- the answer to a request
  pub cluster : List Event → (r : Request) → Result (Reply r)
  -- labels.Set(…).AsSelector().String()
  pub selector_text : Labels → String
  -- the items of a JSON list as texts, and the text of a list of items
  pub json_items : String → Option (List String)
  pub json_list : List String → String
  -- the rounds that a loop without a bound runs before the process is stopped from outside
  pub rounds : ℕ

pub record World : Type 0 where
  pub trace : List Event
  pub gateway_cache : Labels
  -- whether the controller of internal/pkg/ovn was made
  pub controller : Bool
  -- the nodes whose agents are connected
  pub agents : List String

-- A run returns a value, returns an error, or panics.
pub data Run (A : Type 0) : Type 0 where
  done : A → World → Run A
  fail : Error → World → Run A
  crash : World → Run A

abbrev pub M : Type 0 → Type 0
M A = Env → World → Run A

abbrev pub continue : {A B : Type 0} → Run A → (A → M B) → Env → Run B
continue (done a w) f env = f a env w
continue (fail e w) f env = fail e w
continue (crash w) f env = crash w

infixl 5 ◌>>=◌ ◌>>◌
unfoldable pub ◌>>=◌ : {A B : Type 0} → M A → (A → M B) → M B
◌>>=◌ m f env w = continue (m env w) f env

abbrev pub ◌>>◌ : {B : Type 0} → M (Unit {0}) → M B → M B
m >> k = m >>= λ _. k

unfoldable pub pure : {A : Type 0} → A → M A
pure a env w = done a w

unfoldable pub raise : {A : Type 0} → Error → M A
raise e env w = fail e w

-- a run-time panic, such as an index out of range
unfoldable pub panic : {A : Type 0} → M A
panic env w = crash w

-- `if err != nil { return err }`
unfoldable pub check : Option Error → M (Unit {0})
check none env w = done tt w
check (some e) env w = fail e w

-- `err := m()`, the value dropped
abbrev pub error_of : {A : Type 0} → Run A → Run (Option Error)
error_of (done a w) = done none w
error_of (fail e w) = done (some e) w
error_of (crash w) = crash w

unfoldable pub attempt : {A : Type 0} → M A → M (Option Error)
attempt m env w = error_of (m env w)

-- `x, err := m()`
abbrev pub result_of : {A : Type 0} → Run A → Run (Result A)
result_of (done a w) = done (ok a) w
result_of (fail e w) = done (err e) w
result_of (crash w) = crash w

unfoldable pub try : {A : Type 0} → M A → M (Result A)
try m env w = result_of (m env w)

unfoldable pub ask : {A : Type 0} → (Env → List Event → A) → M A
ask f env w = done (f env w.trace) w

-- a Go pair as the outcome of a call
unfoldable pub of_result : {A : Type 0} → Result A → M A
of_result (ok a) env w = done a w
of_result (err e) env w = fail e w

unfoldable pub log : Event → M (Unit {0})
log e env w = done tt (record w { trace = e ∷ w.trace })

-- xs[i]
unfoldable pub index : {A : Type 0} → List A → ℕ → M A
index [] i env w = crash w
index (x ∷ xs) zero env w = done x w
index (x ∷ xs) (suc i) env w = index xs i env w

-- `for _, x := range xs { if err := f(x); err != nil { return err } }`
unfoldable pub for_each : {A : Type 0} → List A → (A → M (Unit {0})) → M (Unit {0})
for_each [] f = pure tt
for_each (x ∷ xs) f = do f x; for_each xs f

-- Its `unfolding` line names the ways to build a run, for proofs that compute one.
unfoldable pub effects : Unit {0}
unfolding ◌>>=◌ pure raise panic check attempt try ask of_result log index for_each
effects = tt
