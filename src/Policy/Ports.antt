-- ===== src/Policy/Ports.antt =====
-- The ports of a rule in networkpolicy_controller.go: what getNetworkPorts collects, and when it
-- panics.
use icn_nodus.Common.{
  if◌then◌else◌, ℕ, ◌≡◌, refl, ap, ◌∙◌, Bool, true, false, Option, none, some, List, [], ◌∷◌, ◌++◌,
  append-nil, append_assoc,
}
use icn_nodus.Effect.{Env, World, Run, done, crash, M, ◌>>=◌, effects}
use icn_nodus.Policy.{
  Protocol, tcp, udp, sctp, IntOrString, int, named, NetworkPolicyPort, PolicyPorts, no_ports,
  add_port, take_port, collect_ports, get_network_ports,
}

-- What the code reads of one port: nothing for a named one, and no answer at a nil pointer.
abbrev pub numbered : Option IntOrString → Option Protocol → Option (List (Protocol × ℕ))
numbered none protocol = none
numbered (some (named s)) protocol = some []
numbered (some (int n)) none = none
numbered (some (int n)) (some q) = some ((q, n) ∷ [])

abbrev joined :
    Option (List (Protocol × ℕ)) → Option (List (Protocol × ℕ)) → Option (List (Protocol × ℕ))
joined none rest = none
joined (some xs) none = none
joined (some xs) (some ys) = some (xs ++ ys)

-- The numbered ports of all entries, in order, or no answer if one of them has a nil pointer.
abbrev pub all_numbered : List NetworkPolicyPort → Option (List (Protocol × ℕ))
all_numbered [] = some []
all_numbered (p ∷ ps) = joined (numbered p.port p.protocol) (all_numbered ps)

abbrev same : Protocol → Protocol → Bool
same tcp tcp = true
same udp udp = true
same sctp sctp = true
same _ _ = false

abbrev pub of_protocol : Protocol → List (Protocol × ℕ) → List ℕ
of_protocol q [] = []
of_protocol q ((r, n) ∷ xs) = if same q r then n ∷ of_protocol q xs else of_protocol q xs

abbrev pub grouped : PolicyPorts → List (Protocol × ℕ) → PolicyPorts
grouped ports xs = record {
  tcp_ports = ports.tcp_ports ++ of_protocol tcp xs;
  udp_ports = ports.udp_ports ++ of_protocol udp xs;
  sctp_ports = ports.sctp_ports ++ of_protocol sctp xs;
}

abbrev pub answer : Option (List (Protocol × ℕ)) → PolicyPorts → World → Run PolicyPorts
answer none ports w = crash w
answer (some xs) ports w = done (grouped ports xs) w

-- Adding one port and grouping the rest, or grouping all of them.
grouped-add_port :
    (q : Protocol) (n : ℕ) (ports : PolicyPorts) (xs : List (Protocol × ℕ))
    → grouped (add_port q n ports) xs ≡ grouped ports ((q, n) ∷ xs)
unfolding add_port
grouped-add_port tcp n ports xs = rw (append_assoc ports.tcp_ports (n ∷ []) (of_protocol tcp xs))
grouped-add_port udp n ports xs = rw (append_assoc ports.udp_ports (n ∷ []) (of_protocol udp xs))
grouped-add_port sctp n ports xs = rw (append_assoc ports.sctp_ports (n ∷ []) (of_protocol sctp xs))

answer-add_port :
    (q : Protocol) (n : ℕ) (ports : PolicyPorts) (rest : Option (List (Protocol × ℕ))) (w : World)
    → answer rest (add_port q n ports) w ≡ answer (joined (some ((q, n) ∷ [])) rest) ports w
answer-add_port q n ports none w = refl
answer-add_port q n ports (some xs) w = ap (λ x. done x w) (grouped-add_port q n ports xs)

answer_skip :
    (ports : PolicyPorts) (rest : Option (List (Protocol × ℕ))) (w : World)
    → answer rest ports w ≡ answer (joined (some []) rest) ports w
answer_skip ports none w = refl
answer_skip ports (some xs) w = refl

module _ (env : Env) (w : World) where
  take_port-answer :
      (port : Option IntOrString) (protocol : Option Protocol) (ports : PolicyPorts)
      (rest : Option (List (Protocol × ℕ))) (k : PolicyPorts → M PolicyPorts)
      → ((ports' : PolicyPorts) → k ports' env w ≡ answer rest ports' w)
      → (take_port port protocol ports >>= k) env w
        ≡ answer (joined (numbered port protocol) rest) ports w
  unfolding take_port effects
  take_port-answer none protocol ports rest k ih = refl
  take_port-answer (some (named s)) protocol ports rest k ih = ih ports ∙ answer_skip ports rest w
  take_port-answer (some (int n)) none ports rest k ih = refl
  take_port-answer (some (int n)) (some q) ports rest k ih =
      ih (add_port q n ports) ∙ answer-add_port q n ports rest w

  collect_ports-answer :
      (ps : List NetworkPolicyPort) (ports : PolicyPorts)
      → collect_ports ps ports env w ≡ answer (all_numbered ps) ports w
  unfolding collect_ports effects
  collect_ports-answer [] ports = simp append-nil
  collect_ports-answer (p ∷ ps) ports =
      take_port-answer p.port p.protocol ports (all_numbered ps) (λ ports'. collect_ports ps ports')
        (λ ports'. collect_ports-answer ps ports')

  -- getNetworkPorts keeps the numbered ports of each protocol in their order and passes over named
  -- ones, without a call to the outside; it panics exactly if the list has an entry with no port,
  -- or a numbered one with no protocol.
  pub get_network_ports-answer :
      (ps : List NetworkPolicyPort)
      → get_network_ports ps env w ≡ answer (all_numbered ps) no_ports w
  unfolding get_network_ports
  get_network_ports-answer ps = collect_ports-answer ps no_ports
