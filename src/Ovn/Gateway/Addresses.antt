-- ===== src/Ovn/Gateway/Addresses.antt =====
-- The gateways of a switch through their text: what getOvnLSExternalIds of internal/pkg/ovn/common.go
-- writes, getGatewayFromSwitch of internal/pkg/ovn/ovn.go reads.
use Prim.Native.String
use Prim.Native.String.{[], ◌∷◌}
use text.Mathlib.TextLemmas.{cons-append, nil-append}
use icn_nodus.Common.{
  sprint, is_blank, split, String, ◌≡◌, refl, ◌≢◌, false, Option, none, some, List, [], ◌∷◌, ◌++◌,
}
use icn_nodus.Common.Text.Splitting.{Lacks, split-Lacks, split-append, Lacks-append}
use icn_nodus.Effect.{ok}
use icn_nodus.Ovn.Gateway.{parse_gateways}
use icn_nodus.Ovn.Switch.{join_gateways}

-- An address and a mask without the characters that separate them.
pub record Gateway : Type 0 where
  pub ip : String
  pub mask : String
  pub ip_comma : Lacks b',' ip
  pub ip_slash : Lacks b'/' ip
  pub mask_comma : Lacks b',' mask
  pub mask_slash : Lacks b'/' mask

abbrev pub address : Gateway → String
address g = sprint (g.ip ∷ "/" ∷ g.mask ∷ [])

slash : (s t : String) → String.◌++◌ s (String.◌++◌ "/" t) ≡ String.◌++◌ s ("/" ∷ t)
slash s t = rw (cons-append "/" "" t, nil-append t) refl

text-Lacks : (g : Gateway) → Lacks b',' (address g)
text-Lacks g =
    rw (slash g.ip g.mask) (Lacks-append b',' g.ip ("/" ∷ g.mask) g.ip_comma (refl, g.mask_comma))

split-text : (g : Gateway) → split b'/' (address g) ≡ g.ip ∷ g.mask ∷ []
split-text g =
    rw
      (
        slash g.ip g.mask,
        split-append b'/' g.ip g.mask "/" g.ip_slash refl,
        split-Lacks b'/' g.mask g.mask_slash,
      )
      refl

abbrev pub address_of : Option Gateway → String
address_of none = ""
address_of (some g) = address g

abbrev pub listed : List Gateway → List String × List String
listed [] = ([], [])
listed (g ∷ gs) = let (ips, masks) = listed gs in (g.ip ∷ ips, g.mask ∷ masks)

parse_gateways-text :
    (g : Gateway) (texts : List String) (gs : List Gateway)
    → parse_gateways texts ≡ ok (listed gs)
    → parse_gateways (address g ∷ texts) ≡ ok (listed (g ∷ gs))
unfolding parse_gateways
parse_gateways-text g texts gs h = rw (split-text g, h) refl

not_blank : (g : Gateway) → is_blank (address g) ≡ false
not_blank g = rw (slash g.ip g.mask) (at g.ip)
  where
    at : (s : String) → is_blank (String.◌++◌ s ("/" ∷ g.mask)) ≡ false
    at [] = rw (nil-append ("/" ∷ g.mask)) refl
    at (c ∷ s) = rw (cons-append c s ("/" ∷ g.mask)) refl

abbrev pub given : Option Gateway → List Gateway
given none = []
given (some g) = g ∷ []

-- The two texts joined with a comma.
split-both :
    (g h : Gateway)
    → split b',' (sprint (address g ∷ "," ∷ address h ∷ [])) ≡ address g ∷ address h ∷ []
split-both g h =
    let e : String.◌++◌ "," (address h) ≡ "," ∷ address h =
      rw (cons-append "," "" (address h), nil-append (address h)) refl in
    rw
      (
        e,
        split-append b',' (address g) (address h) "," (text-Lacks g) refl,
        split-Lacks b',' (address h) (text-Lacks h),
      )
      refl

none_left : parse_gateways [] ≡ ok (listed [])
unfolding parse_gateways
none_left = refl

-- Reading back: the gateways of a switch that has one for IPv4, one for IPv6 or both are read as the
-- addresses and the masks that were written, IPv4 first, if no part of them has a comma or a slash
-- of its own.
pub parse_gateways-join_gateways :
    (v4 v6 : Option Gateway)
    → given v4 ++ given v6 ≢ []
    → parse_gateways (split b',' (join_gateways (address_of v4) (address_of v6)))
      ≡ ok (listed (given v4 ++ given v6))
unfolding join_gateways
parse_gateways-join_gateways none none h = absurd (h refl)
parse_gateways-join_gateways (some g) none h =
    rw (split-Lacks b',' (address g) (text-Lacks g)) (parse_gateways-text g [] [] none_left)
parse_gateways-join_gateways none (some h) k =
    rw (not_blank h, split-Lacks b',' (address h) (text-Lacks h))
      (parse_gateways-text h [] [] none_left)
parse_gateways-join_gateways (some g) (some h) k =
    rw (not_blank h, not_blank g, split-both g h)
      (parse_gateways-text g _ (h ∷ []) (parse_gateways-text h [] [] none_left))
