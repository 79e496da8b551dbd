-- ===== src/Policy/RuleExpr.antt =====
-- The match text of one rule of addACLs in networkpolicy_controller.go, read by OVN's grammar.
use Prim.Native.String.{[], ◌∷◌}
use mathlib.Core.Bool.{or-false, and-true}
use text.Mathlib.TextLemmas.{append_assoc as text_assoc}
use icn_nodus.Common.{
  if◌then◌else◌, sprint, is_blank, contains, filled, String, ◌≡◌, refl, ap, ◌∙◌, ◌≢◌, ◌⊎◌, inl, inr,
  Bool, true, false, ◌&&◌, ◌||◌, Option, none, some, List, [], ◌∷◌,
}
use icn_nodus.Ovn.Acl.{PolicyDirection, Acl}
use icn_nodus.Policy.{
  IpBlock, concatenate, add_braces, get_ip_version, create_ip_block_match, ip_test, ip_tests_from,
  ip_slice_to_acl,
}
use icn_nodus.Policy.Acls.{
  AclState, block_side, block_match, peer_or_block, next_acl_rule, port_match, rule_match,
}
use icn_nodus.Policy.Expr.{
  single, ands, ors, Packet, Reads, test, braces, both, and_then, either, Means, Alternatives,
  spaced, Means-Alternatives, is_blank-append,
}
use icn_nodus.Policy.PeerExpr.{
  any_ip, ip_slice_to_acl-Alternatives, in_block, create_ip_block_match-Reads,
}
use icn_nodus.Ovn.PortGroup.{match_port}

abbrev pub block_value : Packet → PolicyDirection → Option IpBlock → Bool
block_value p direction none = false
block_value p direction (some block) = in_block p (block_side direction) block

ip_slice-filled :
    (direction : PolicyDirection) (ip : String) (ips : List String)
    → is_blank (ip_slice_to_acl (ip ∷ ips) direction "==" "||") ≡ false
unfolding ip_slice_to_acl
ip_slice-filled direction ip ips = from (ip_test direction "==" ip) ips (first ip)
  where
    version : (b : Bool) → is_blank (if b then "ip4" else "ip6") ≡ false
    version true = refl
    version false = refl

    first : (ip : String) → is_blank (ip_test direction "==" ip) ≡ false
    first ip =
        unfold ip_test concatenate get_ip_version in
        is_blank-append _ _ (is_blank-append _ _ (version (contains ip ".")))

    from :
        (acl : String) (ips : List String)
        → is_blank acl ≡ false
        → is_blank (ip_tests_from direction "==" "||" acl ips) ≡ false
    from acl [] h = h
    from acl (ip ∷ ips) h =
        from (concatenate acl (ip_test direction "==" ip) "||") ips
          (unfold concatenate in is_blank-append acl _ h)

block-filled :
    (block : IpBlock) (direction : String)
    → is_blank (create_ip_block_match block direction) ≡ false
unfolding create_ip_block_match add_braces
block-filled block direction = is_blank-append "(" _ refl

Braces : {p : Packet} {t : String} {b : Bool} → Alternatives p t b → Reads p single (add_braces t) b
Braces (inl x) = braces x
Braces (inr x) = braces x

-- A text that may be missing, with its value.
abbrev pub Given : Packet → String → Option Bool → Type 0
Given p t none = t ≡ ""
Given p t (some b) = Reads p single t b × (is_blank t ≡ false)

abbrev pub or_true : Option Bool → Bool
or_true none = true
or_true (some b) = b

module _ (p : Packet) (direction : PolicyDirection) where
  -- The text for a peer: not blank, and true of the packet if an address or the block matches.
  abbrev MeansPeer : String → List String → Option IpBlock → Type 0
  MeansPeer t ips block =
      Means p t (any_ip p direction ips || block_value p direction block) × (is_blank t ≡ false)

  peer_or_block-Means :
      (ips : List String) (block : Option IpBlock)
      → (ips ≢ []) ⊎ (block ≢ none)
      → MeansPeer
          (peer_or_block (ip_slice_to_acl ips direction "==" "||") (block_match block direction))
          ips
          block
  unfolding peer_or_block block_match
  peer_or_block-Means [] none h = elim h [ inl f ↦ absurd (f refl) | inr f ↦ absurd (f refl) ]
  peer_or_block-Means [] (some block) h =
      unfold ip_slice_to_acl in
      (
        (single, create_ip_block_match-Reads p block (block_side direction)),
        block-filled block (block_side direction),
      )
  peer_or_block-Means (ip ∷ ips) none h =
      rw (ip_slice-filled direction ip ips, or-false)
        (
          Means-Alternatives p (ip_slice_to_acl-Alternatives p direction ip ips),
          ip_slice-filled direction ip ips,
        )
  peer_or_block-Means (ip ∷ ips) (some block) h =
      rw (ip_slice-filled direction ip ips, block-filled block (block_side direction))
        (
          (
            ors,
            either (Braces (ip_slice_to_acl-Alternatives p direction ip ips))
                (create_ip_block_match-Reads p block (block_side direction)),
          ),
          (unfold concatenate add_braces in is_blank-append _ _ (is_blank-append "(" _ refl)),
        )

three :
    (s t u : String)
    → concatenate s (sprint (t ∷ " && " ∷ u ∷ [])) "&&" ≡ concatenate (concatenate s t "&&") u "&&"
unfolding concatenate
three s t u = ap (λ x. sprint (s ∷ " " ∷ "&&" ∷ " " ∷ t ∷ x ∷ [])) (spaced "&&" u) ∙ simp text_assoc

module _ (p : Packet) where
  -- The text of `aclRule` behind a conjunct `s`.
  next_acl_rule-Means :
      (s t old ports_match : String) (a b : Bool) (ports : Option Bool)
      → Reads p single s a
      → Means p t b
      → is_blank t ≡ false
      → Given p ports_match ports
      → Means p (concatenate s (next_acl_rule t ports_match old) "&&") ((a && or_true ports) && b)
  unfolding next_acl_rule
  next_acl_rule-Means s t old ports_match a b none x (k, y) h e =
      rw (e, h, and-true) (ands, both x (braces y))
  next_acl_rule-Means s t old ports_match a b (some c) x (k, y) h (z, f) =
      rw (h, f, three s ports_match (add_braces t)) (ands, and_then (both x z) (braces y))

abbrev pub port_value : Packet → Acl → Bool
port_value p rule = p (match_port rule.direction) "==" (sprint ("@" ∷ rule.entity ∷ []))

-- For every packet: where a peer has an address block or selects at least one pod, the match text of
-- its rule is a well-formed expression of OVN's grammar. It holds exactly if the logical port is in
-- the group, the ports match (where the rule has any), and the block or one of the pods'
-- addresses matches.
pub rule_match-Means :
    (p : Packet) (s : AclState) (direction : PolicyDirection) (ips : List String)
    (block : Option IpBlock) (ports : Option Bool)
    → (ips ≢ []) ⊎ (block ≢ none)
    → Given p s.ports_match ports
    → Means p
        (rule_match s (ip_slice_to_acl ips direction "==" "||") (block_match block direction))
        ((port_value p s.rule && or_true ports)
          && (any_ip p direction ips || block_value p direction block))
unfolding rule_match port_match
rule_match-Means p s direction ips block ports h e =
    let (peer, filled) = peer_or_block-Means p direction ips block h in
    next_acl_rule-Means p _ _ s.acl_rule s.ports_match _ _ ports (test _ "==" _) peer filled e
