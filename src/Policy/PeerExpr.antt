-- ===== src/Policy/PeerExpr.antt =====
-- The expressions for peers and address blocks of networkpolicy_controller.go, read by OVN's grammar.
use Prim.Native.String.{[], ◌∷◌}
use mathlib.Core.Bool.{or_assoc, or-false, and_assoc, and-true}
use icn_nodus.Common.{sprint, any, String, ◌⊎◌, inl, inr, Bool, true, ◌&&◌, ◌||◌, List, [], ◌∷◌}
use icn_nodus.Ovn.Acl.{PolicyDirection}
use icn_nodus.Policy.{
  IpBlock, concatenate, get_ip_version, except_matches, create_ip_block_match, acl_side, ip_test,
  ip_tests_from, ip_slice_to_acl,
}
use icn_nodus.Policy.Expr.{
  single, ands, Packet, Reads, test, braces, both, and_then, Alternatives, alternative,
}

abbrev pub any_ip : Packet → PolicyDirection → List String → Bool
any_ip p direction = any (λ ip. p (sprint (get_ip_version ip ∷ acl_side direction ∷ [])) "==" ip)

module _ (p : Packet) where
  ip_test-Reads :
      (direction : PolicyDirection) (ip : String)
      → Reads p single
          (ip_test direction "==" ip)
          (p (sprint (get_ip_version ip ∷ acl_side direction ∷ [])) "==" ip)
  unfolding ip_test
  ip_test-Reads direction ip = test _ "==" ip

  ip_tests_from-Alternatives :
      (direction : PolicyDirection) (acl : String) (b : Bool) (ips : List String)
      → Alternatives p acl b
      → Alternatives p (ip_tests_from direction "==" "||" acl ips) (b || any_ip p direction ips)
  unfolding ip_tests_from
  ip_tests_from-Alternatives direction acl b [] h = rw or-false h
  ip_tests_from-Alternatives direction acl b (ip ∷ ips) h =
      rw (← or_assoc b (p (sprint (get_ip_version ip ∷ acl_side direction ∷ [])) "==" ip) _) (
        ip_tests_from-Alternatives direction (concatenate acl (ip_test direction "==" ip) "||")
          (b || p (sprint (get_ip_version ip ∷ acl_side direction ∷ [])) "==" ip) ips
          (alternative p h (ip_test-Reads direction ip)))

  -- The text for the addresses of a peer's pods holds if one of them is the packet's, on the side
  -- that the direction names.
  pub ip_slice_to_acl-Alternatives :
      (direction : PolicyDirection) (ip : String) (ips : List String)
      → Alternatives p
          (ip_slice_to_acl (ip ∷ ips) direction "==" "||")
          (any_ip p direction (ip ∷ ips))
  unfolding ip_slice_to_acl
  ip_slice_to_acl-Alternatives direction ip ips =
      ip_tests_from-Alternatives direction (ip_test direction "==" ip)
        (p (sprint (get_ip_version ip ∷ acl_side direction ∷ [])) "==" ip) ips
        (inl (ip_test-Reads direction ip))

  abbrev no_exception : String → List String → Bool
  no_exception tag [] = true
  no_exception tag (e ∷ es) = p tag "!=" e && no_exception tag es

  -- One test or a chain of conditions.
  abbrev Conditions : String → Bool → Type 0
  Conditions t b = Reads p single t b ⊎ Reads p ands t b

  pub condition :
      {s t : String} {a b : Bool}
      → Conditions s a
      → Reads p single t b
      → Reads p ands (concatenate s t "&&") (a && b)
  condition (inl x) y = both x y
  condition (inr x) y = and_then x y

  except_matches-Conditions :
      (tag match : String) (b : Bool) (exceptions : List String)
      → Conditions match b
      → Conditions (except_matches tag match exceptions) (b && no_exception tag exceptions)
  unfolding except_matches
  except_matches-Conditions tag match b [] h = rw and-true h
  except_matches-Conditions tag match b (e ∷ es) h = rw (← and_assoc b (p tag "!=" e) _) (
      except_matches-Conditions tag (concatenate match (concatenate tag e "!=") "&&")
        (b && p tag "!=" e) es (inr (condition h (test tag "!=" e))))

  abbrev pub in_block : String → IpBlock → Bool
  in_block direction block =
      let tag = sprint (get_ip_version block.cidr ∷ "." ∷ direction ∷ []) in
      p tag "==" block.cidr && no_exception tag block.except

  pub create_ip_block_match-Reads :
      (block : IpBlock) (direction : String)
      → Reads p single (create_ip_block_match block direction) (in_block direction block)
  unfolding create_ip_block_match
  create_ip_block_match-Reads block direction =
      elim (except_matches-Conditions (sprint (get_ip_version block.cidr ∷ "." ∷ direction ∷ [])) _
        _ block.except (inl (test _ "==" block.cidr))) [ inl x ↦ braces x | inr x ↦ braces x ]
