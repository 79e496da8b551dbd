-- ===== src/Policy/Expr.antt =====
-- The grammar of OVN's match expressions with their meaning, and the expressions that
-- networkpolicy_controller.go builds, read by it. A test such as `tcp.dst == 80` and the
-- name of a protocol are atoms. `&&` and `||` may not stand side by side without parentheses.
use Prim.Native.String
use Prim.Native.String.{[], ◌∷◌}
use text.Mathlib.TextLemmas.{append_assoc as text_assoc, cons-append}
use mathlib.Core.Bool.{or_assoc, or-false}
use icn_nodus.Common.{
  sprint, is_blank, itoa, any, ℕ, String, ◌≡◌, refl, ap, ◌∙◌, ◌≢◌, ◌⊎◌, inl, inr, Bool, false, ◌&&◌,
  ◌||◌, List, [], ◌∷◌, ◌++◌,
}
use icn_nodus.Policy.{
  concatenate, add_braces, PolicyPorts, port_test, ports_match_from, get_ports_match, port_rules,
  join_rules, create_ports_match,
}

pub data Shape : Type 0 where
  single ands ors : Shape

-- What holds of a packet: by field, operator and value.
abbrev pub Packet : Type 0
Packet = String → String → String → Bool

-- `Reads p k t b`: the text `t` is an expression of shape `k`, and is `b` for the packet `p`.
pub data Reads (p : Packet) : Shape → String → Bool → Type 0 where
  test :
      (field operator value : String)
      → Reads p single (concatenate field value operator) (p field operator value)
  braces : {k : Shape} {t : String} {b : Bool} → Reads p k t b → Reads p single (add_braces t) b
  both :
      {s t : String} {a b : Bool}
      → Reads p single s a
      → Reads p single t b
      → Reads p ands (concatenate s t "&&") (a && b)
  and_then :
      {s t : String} {a b : Bool}
      → Reads p ands s a
      → Reads p single t b
      → Reads p ands (concatenate s t "&&") (a && b)
  either :
      {s t : String} {a b : Bool}
      → Reads p single s a
      → Reads p single t b
      → Reads p ors (concatenate s t "||") (a || b)
  or_else :
      {s t : String} {a b : Bool}
      → Reads p ors s a
      → Reads p single t b
      → Reads p ors (concatenate s t "||") (a || b)

-- The text is an expression of some shape with the value `b`.
abbrev pub Means : Packet → String → Bool → Type 0
Means p t b = (k : Shape) × Reads p k t b

-- One or more alternatives.
abbrev pub Alternatives : Packet → String → Bool → Type 0
Alternatives p t b = Reads p single t b ⊎ Reads p ors t b

pub spaced :
    (operator s : String)
    → String.◌++◌ (sprint (" " ∷ operator ∷ " " ∷ [])) s ≡ sprint (" " ∷ operator ∷ " " ∷ s ∷ [])
spaced operator s = simp text_assoc

port_test-concatenate :
    (protocol direction : String) (n : ℕ)
    → port_test protocol direction n
      ≡ concatenate (sprint (protocol ∷ "." ∷ direction ∷ [])) (itoa n) "=="
unfolding port_test concatenate
port_test-concatenate protocol direction n =
    ap (λ s. sprint (protocol ∷ "." ∷ direction ∷ s ∷ [])) (spaced "==" (itoa n)) ∙ simp text_assoc

module _ (p : Packet) where
  pub alternative :
      {s t : String} {a b : Bool}
      → Alternatives p s a
      → Reads p single t b
      → Alternatives p (concatenate s t "||") (a || b)
  alternative (inl x) y = inr (either x y)
  alternative (inr x) y = inr (or_else x y)

  pub Means-Alternatives : {t : String} {b : Bool} → Alternatives p t b → Means p t b
  Means-Alternatives (inl x) = (single, x)
  Means-Alternatives (inr x) = (ors, x)

  abbrev pub any_port : String → String → List ℕ → Bool
  any_port protocol direction ports =
      any (λ n. p (sprint (protocol ∷ "." ∷ direction ∷ [])) "==" (itoa n)) ports

  port_test-Reads :
      (protocol direction : String) (n : ℕ)
      → Reads p single
          (port_test protocol direction n)
          (p (sprint (protocol ∷ "." ∷ direction ∷ [])) "==" (itoa n))
  port_test-Reads protocol direction n =
      rw (port_test-concatenate protocol direction n) (test _ _ _)

  ports_match_from-Alternatives :
      (protocol direction match : String) (b : Bool) (ports : List ℕ)
      → Alternatives p match b
      → Alternatives p
          (ports_match_from protocol direction match ports)
          (b || any_port protocol direction ports)
  unfolding ports_match_from
  ports_match_from-Alternatives protocol direction match b [] h = rw or-false h
  ports_match_from-Alternatives protocol direction match b (n ∷ ns) h =
      rw (← or_assoc b (p (sprint (protocol ∷ "." ∷ direction ∷ [])) "==" (itoa n)) _) (
        ports_match_from-Alternatives protocol direction
          (concatenate match (port_test protocol direction n) "||")
          (b || p (sprint (protocol ∷ "." ∷ direction ∷ [])) "==" (itoa n)) ns
          (alternative h (port_test-Reads protocol direction n)))

  get_ports_match-Alternatives :
      (protocol direction : String) (n : ℕ) (ns : List ℕ)
      → Alternatives p
          (get_ports_match (n ∷ ns) protocol direction)
          (any_port protocol direction (n ∷ ns))
  unfolding get_ports_match
  get_ports_match-Alternatives protocol direction n ns =
      ports_match_from-Alternatives protocol direction (port_test protocol direction n)
        (p (sprint (protocol ∷ "." ∷ direction ∷ [])) "==" (itoa n)) ns
        (inl (port_test-Reads protocol direction n))

  braced_ports-Reads :
      (protocol direction : String) (n : ℕ) (ns : List ℕ)
      → Reads p single
          (add_braces (get_ports_match (n ∷ ns) protocol direction))
          (any_port protocol direction (n ∷ ns))
  braced_ports-Reads protocol direction n ns =
      elim (get_ports_match-Alternatives protocol direction n ns) [
        | inl x ↦ braces x
        | inr x ↦ braces x
      ]

pub is_blank-append : (s t : String) → is_blank s ≡ false → is_blank (String.◌++◌ s t) ≡ false
is_blank-append [] t h = cc
is_blank-append (c ∷ s) t h = rw cons-append

ports_match_from-filled :
    (protocol direction match : String) (ns : List ℕ)
    → is_blank match ≡ false
    → is_blank (ports_match_from protocol direction match ns) ≡ false
unfolding ports_match_from concatenate
ports_match_from-filled protocol direction match [] h = h
ports_match_from-filled protocol direction match (n ∷ ns) h =
    ports_match_from-filled protocol direction
      (concatenate match (port_test protocol direction n) "||") ns (is_blank-append match _ h)

pub get_ports_match-filled :
    (protocol direction : String) (n : ℕ) (ns : List ℕ)
    → is_blank protocol ≡ false
    → is_blank (get_ports_match (n ∷ ns) protocol direction) ≡ false
unfolding get_ports_match port_test
get_ports_match-filled protocol direction n ns h =
    ports_match_from-filled protocol direction (port_test protocol direction n) ns
      (is_blank-append protocol _ h)

-- The text of a rule behind the rules before it.
join_two : (s t : String) → sprint (s ∷ " || " ∷ t ∷ []) ≡ concatenate s t "||"
unfolding concatenate
join_two s t = ap (λ x. String.◌++◌ s x) (spaced "||" t)

abbrev pub tcp_and_udp : List ℕ → List ℕ → PolicyPorts
tcp_and_udp tcp_ports udp_ports = record {
  tcp_ports = tcp_ports;
  udp_ports = udp_ports;
  sctp_ports = [];
}

module _ (direction : String) (n : ℕ) (ns : List ℕ) where
  tcp_text :
      create_ports_match (tcp_and_udp (n ∷ ns) []) direction
      ≡ add_braces (add_braces (get_ports_match (n ∷ ns) "tcp" direction))
  unfolding create_ports_match port_rules
  tcp_text = rw (get_ports_match-filled "tcp" direction n ns refl)

  udp_text :
      create_ports_match (tcp_and_udp [] (n ∷ ns)) direction
      ≡ add_braces (add_braces (get_ports_match (n ∷ ns) "udp" direction))
  unfolding create_ports_match port_rules
  udp_text = rw (get_ports_match-filled "udp" direction n ns refl)

  both_text :
      (m : ℕ) (ms : List ℕ)
      → create_ports_match (tcp_and_udp (n ∷ ns) (m ∷ ms)) direction
        ≡ add_braces (
            concatenate
              (add_braces (get_ports_match (n ∷ ns) "tcp" direction))
              (add_braces (get_ports_match (m ∷ ms) "udp" direction))
              "||")
  unfolding create_ports_match port_rules join_rules
  both_text m ms =
      rw
        (
          get_ports_match-filled "tcp" direction n ns refl,
          get_ports_match-filled "udp" direction m ms refl,
        )
        (ap add_braces (join_two _ _))

-- For every packet and every non-empty choice of TCP and UDP ports, without SCTP ones, the text that
-- createPortsMatch builds is one parenthesised expression of OVN's grammar, and it holds of the
-- packet exactly if one of the TCP ports or one of the UDP ports is the packet's.
pub create_ports_match-Reads :
    (p : Packet) (direction : String) (tcp_ports udp_ports : List ℕ)
    → tcp_ports ++ udp_ports ≢ []
    → Reads p single
        (create_ports_match (tcp_and_udp tcp_ports udp_ports) direction)
        (any_port p "tcp" direction tcp_ports || any_port p "udp" direction udp_ports)
create_ports_match-Reads p direction [] [] h = absurd (h refl)
create_ports_match-Reads p direction (n ∷ ns) [] h =
    rw (tcp_text direction n ns, or-false) (braces (braced_ports-Reads p "tcp" direction n ns))
create_ports_match-Reads p direction [] (m ∷ ms) h =
    rw (udp_text direction m ms) (braces (braced_ports-Reads p "udp" direction m ms))
create_ports_match-Reads p direction (n ∷ ns) (m ∷ ms) h = rw (both_text direction n ns m ms) (
    braces (
      either (braced_ports-Reads p "tcp" direction n ns)
        (braced_ports-Reads p "udp" direction m ms)))
