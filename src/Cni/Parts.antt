-- ===== src/Cni/Parts.antt =====
-- internal/pkg/cniserver/cni.go: what one network of AddMultipleInterfaces gives.
use icn_nodus.Common.{
  if◌then◌else◌, is_some, is_blank, ℕ, ◌+◌, String, ◌≡◌, refl, sym, ap, ◌∙◌, Bool, true, false,
  Option, none, some, List, [], ◌∷◌, ◌==◌,
}
use icn_nodus.Effect.{Result, ok, err, Env, World, done, M, pure, panic, try, ask, index}
use icn_nodus.Effect.Inverse.{>>=-eq-done, done-eq-done, try-eq-ok}
use icn_nodus.Cni.{
  OvnNetwork, CniRequest, IpConfig, CniResult, Attachment, CniClients, merge_with_result,
  with_config, generate_ip_configs, Wanted, every, no_list, only, Choice, ends, panics, left_out,
  goes_on, choose, result_of_net, finish_net, attach_net,
}

-- A network that was configured, with the interfaces that were made for it.
pub record Part : Type 0 where
  pub attachment : Attachment
  pub made : List String

-- Each address of a network with the gateway at its place, on the second interface.
abbrev pub configs : List String → List String → List IpConfig
configs [] gateways = []
configs (ip ∷ ips) [] = []
configs (ip ∷ ips) (gateway ∷ gateways) =
    record { interface = 1; address = ip; gateway = gateway } ∷ configs ips gateways

abbrev pub part_result : Part → CniResult
part_result p =
    result_of_net p.made p.attachment.default_gateway p.attachment.net.gateway_ip
      (configs p.attachment.net.ip_address p.attachment.net.gateway_ip)

-- The results of the parts merged behind what was found.
abbrev pub merged : Option CniResult → List Part → Option CniResult
merged found [] = found
merged found (p ∷ ps) = merged (some (merge_with_result (part_result p) found)) ps

-- A network with its number from 1, whether it is given a default gateway, and whether one has been asked
-- for up to it.
abbrev pub Given : Type 0
Given = OvnNetwork × ℕ × Bool × Bool

-- Whether a network is one of those that are wanted.
abbrev pub is_selected : Wanted → OvnNetwork → Bool
is_selected every net = true
is_selected no_list net = false
is_selected (only intf) net = net.interface == intf

-- What a round does with a network that is selected, or is not, where the loop goes on behind it.
abbrev pub Agrees : Choice → Bool → Type 0
Agrees ends selected = Unit {0}
Agrees panics selected = Unit {0}
Agrees left_out selected = selected ≡ false
Agrees goes_on selected = selected ≡ true

by_interface :
    (blank same : Bool) → Agrees (if blank then ends else if same then goes_on else left_out) same
by_interface true same = tt
by_interface false true = refl
by_interface false false = refl

pub choose-Agrees :
    (wanted : Wanted) (net : OvnNetwork) → Agrees (choose wanted net) (is_selected wanted net)
unfolding choose
choose-Agrees every net = refl
choose-Agrees no_list net = tt
choose-Agrees (only intf) net = by_interface (is_blank intf) (net.interface == intf)

-- The wanted networks of a list, behind `index` others, with the choice of the default gateway for each
-- network of the list.
abbrev pub selected : Wanted → ℕ → List OvnNetwork → List (Bool × Bool) → List Given
selected wanted index [] gateways = []
selected wanted index (net ∷ nets) [] = []
selected wanted index (net ∷ nets) (b ∷ bs) =
    let rest = selected wanted (index + 1) nets bs in
    if is_selected wanted net then (net, index + 1, b.0, b.1) ∷ rest else rest

abbrev pub given : List Part → List Given
given [] = []
given (p ∷ ps) =
    (
      p.attachment.net,
      p.attachment.index,
      p.attachment.default_gateway == "true",
      p.attachment.is_default,
    )
    ∷ given ps

module _ (clients : CniClients) (req : CniRequest) where
  -- The parts were configured one behind the other, and nothing else was called.
  abbrev pub Ran : Env → World → List Part → World → Type 0
  Ran env w [] v = v ≡ w
  Ran env w (p ∷ ps) v =
      (u : World) × (clients.configure req p.attachment env w ≡ done p.made u) × Ran env u ps v

abbrev pub IsFor : String → String → Part → Type 0
IsFor namespace pod p = (p.attachment.namespace ≡ namespace) × (p.attachment.pod ≡ pod)

pub none-is-some :
    {A : Type 0} (env : Env) (w v : World) (x : A) → ¬ (pure none env w ≡ done (some x) v)
unfolding pure
none-is-some env w v x h = cc

pub panic-is-done : {A : Type 0} (env : Env) (w v : World) (x : A) → ¬ (panic env w ≡ done x v)
unfolding panic
panic-is-done env w v x h = cc

with_config-eq-some :
    (ip gateway : String) (o : Option (List IpConfig)) (l : List IpConfig)
    → with_config ip gateway o ≡ some l
    → (rest : List IpConfig) × (o ≡ some rest)
      × (l ≡ record { interface = 1; address = ip; gateway = gateway } ∷ rest)
with_config-eq-some ip gateway none l h = cc
with_config-eq-some ip gateway (some rest) l h = (rest, refl, cc)

if_parses :
    (b : Bool) (m : M (Option (List IpConfig))) (env : Env) (w v : World) (l : List IpConfig)
    → (if b then m else pure none) env w ≡ done (some l) v
    → m env w ≡ done (some l) v
if_parses true m env w v l h = h
if_parses false m env w v l h = elim (none-is-some env w v l h) [ ]

generated :
    (ips gateways : List String) (env : Env) (w v : World) (l : List IpConfig)
    → generate_ip_configs ips gateways env w ≡ done (some l) v
    → (v ≡ w) × (l ≡ configs ips gateways)
unfolding generate_ip_configs pure ask
generated [] gateways env w v l h = let (a, b) = done-eq-done h in (sym b, cc)
generated (ip ∷ ips) [] env w v l h =
    let (b, u, p, q) =
      >>=-eq-done (ask (λ env _. is_some (env.parse_cidr ip))) _ env w (some l) v h in
    elim (panic-is-done env u v (some l) (if_parses b panic env u v l q)) [ ]
generated (ip ∷ ips) (gateway ∷ gateways) env w v l h =
    let (b, u, p, q) =
      >>=-eq-done (ask (λ env _. is_some (env.parse_cidr ip))) _ env w (some l) v h in
    let (o, x, p', q') =
      >>=-eq-done (generate_ip_configs ips gateways) _ env u (some l) v
        (if_parses b _ env u v l q) in
    let (same, last) = done-eq-done q' in
    let (rest, is_rest, whole) = with_config-eq-some ip gateway o l same in
    let (world, value) = generated ips gateways env u x rest (rw is_rest at p') in
    (
      sym last ∙ world ∙ sym (done-eq-done p).1,
      whole ∙ ap (λ r. record { interface = 1; address = ip; gateway = gateway } ∷ r) value,
    )

-- One network of the loop.
module _ (clients : CniClients) (req : CniRequest) (namespace pod : String) where
  abbrev pub attachment_of : OvnNetwork → String → ℕ → Bool → Attachment
  attachment_of net gateway index is_default = record {
    namespace = namespace;
    pod = pod;
    net = net;
    default_gateway = gateway;
    index = index;
    is_default = is_default;
  }

  abbrev pub Attaches : Attachment → Env → World → World → CniResult → Type 0
  Attaches a env w v r =
      (made : List String) × (clients.configure req a env w ≡ done made v)
      × (r ≡ part_result (record { attachment = a; made = made }))

  finish_net-done :
      (a : Attachment) (made : List String) (env : Env) (w v : World) (r : CniResult)
      → finish_net a.net a.default_gateway (ok made) env w ≡ done (some r) v
      → (v ≡ w) × (r ≡ part_result (record { attachment = a; made = made }))
  unfolding pure
  finish_net-done a made env w v r h =
      let (o, u, p, q) =
        >>=-eq-done (generate_ip_configs a.net.ip_address a.net.gateway_ip) _ env w (some r) v h in
      of_configs o u p (done-eq-done q).0 (done-eq-done q).1
    where
      of_configs :
          (o : Option (List IpConfig)) (u : World)
          → generate_ip_configs a.net.ip_address a.net.gateway_ip env w ≡ done o u
          → elim o [
            | none ↦ none
            | some l ↦ some (result_of_net made a.default_gateway a.net.gateway_ip l)
          ]
            ≡ some r
          → u ≡ v
          → (v ≡ w) × (r ≡ part_result (record { attachment = a; made = made }))
      of_configs none u p q e = cc
      of_configs (some l) u p q e =
          let (world, value) = generated a.net.ip_address a.net.gateway_ip env w u l p in
          let same : r ≡ result_of_net made a.default_gateway a.net.gateway_ip l = cc in
          (sym e ∙ world, same ∙ ap (result_of_net made a.default_gateway a.net.gateway_ip) value)

  pub attach_net-Attaches :
      (net : OvnNetwork) (gateway : String) (index : ℕ) (is_default : Bool) (env : Env)
      (w v : World) (r : CniResult)
      → attach_net clients req namespace pod net gateway index is_default env w ≡ done (some r) v
      → Attaches (attachment_of net gateway index is_default) env w v r
  unfolding attach_net
  attach_net-Attaches net gateway index is_default env w v r h =
      let (made, u, p, q) = >>=-eq-done (try (clients.configure req _)) _ env w (some r) v h in
      of_made made u p q
    where
      of_made :
          (made : Result (List String)) (u : World)
          → try (clients.configure req (attachment_of net gateway index is_default)) env w
            ≡ done made u
          → finish_net net gateway made env u ≡ done (some r) v
          → Attaches (attachment_of net gateway index is_default) env w v r
      of_made (err e) u p q = elim (none-is-some env u v r q) [ ]
      of_made (ok l) u p q =
          let (world, value) =
            finish_net-done (attachment_of net gateway index is_default) l env u v r q in
          (l, rw (← world) at (try-eq-ok (clients.configure req _) env w l u p), value)
