-- ===== src/Ovn/Bridge/Mapping.antt =====
-- The text of the mapping of networks to bridges in internal/pkg/ovn/common.go, written and read.
use Prim.Native.String
use Prim.Native.String.{[], ◌∷◌}
use text.Mathlib.TextLemmas.{
  cons-append, nil-append, append_assoc as text_assoc, append-nil as text_nil,
}
use icn_nodus.Common.{
  sprint, is_blank, split, trim_space, drop_last, All, Char, String, ◌≡◌, refl, sym, ap, ◌∙◌, Bool,
  true, false, none, some, [], ◌∷◌, ◌++◌, map, append-nil, append_assoc, ◌==◌,
}
use icn_nodus.Common.Text.Splitting.{Lacks, split-Lacks, split-append, Lacks-append}
use icn_nodus.Api.{Labels, lookup, insert}
use icn_nodus.Ovn.Bridge.{put_label, parse_labels, parse_mapping, label_text, mapping_text}

-- A name without the characters of the mapping's syntax, and without space at its ends.
abbrev pub IsPlain : String → Type 0
IsPlain s = Lacks b',' s × Lacks b':' s × (trim_space s ≡ s)

abbrev pub IsPlainLabel : String × String → Type 0
IsPlainLabel (key, value) = IsPlain key × IsPlain value

-- The labels put behind one another: each key is new.
abbrev pub AreNew : Labels → Labels → Type 0
AreNew mm [] = Unit
AreNew mm ((key, value) ∷ rest) = (lookup key mm ≡ none) × AreNew (mm ++ (key, value) ∷ []) rest

insert-new :
    (key value : String) (mm : Labels)
    → lookup key mm ≡ none
    → insert key value mm ≡ mm ++ (key, value) ∷ []
unfolding lookup insert
insert-new key value [] h = refl
insert-new key value ((j, x) ∷ mm) h = at (j == key) refl (insert-new key value mm)
  where
    at :
        (b : Bool)
        → (j == key) ≡ b
        → (lookup key mm ≡ none → insert key value mm ≡ mm ++ (key, value) ∷ [])
        → insert key value ((j, x) ∷ mm) ≡ ((j, x) ∷ mm) ++ (key, value) ∷ []
    at true e k = cc (rw (e) at h)
    at false e k = rw (e) (ap (λ (l : Labels). (j, x) ∷ l) (k (rw (e) at h)))

-- The text without the trailing comma.
abbrev joined : Labels → String
joined [] = ""
joined ((key, value) ∷ []) = sprint (key ∷ ":" ∷ value ∷ [])
joined ((key, value) ∷ m ∷ mm) =
    String.◌++◌ (sprint (key ∷ ":" ∷ value ∷ [])) (String.◌++◌ "," (joined (m ∷ mm)))

filled-append : (s t : String) → is_blank t ≡ false → is_blank (String.◌++◌ s t) ≡ false
filled-append [] t h = rw (nil-append t) h
filled-append (c ∷ s) t h = rw (cons-append c s t) refl

drop_last-cons : (c : Char) (u : String) → is_blank u ≡ false → drop_last (c ∷ u) ≡ c ∷ drop_last u
unfolding drop_last
drop_last-cons c [] h = cc
drop_last-cons c (d ∷ u) h = refl

drop_last-append :
    (s t : String) → is_blank t ≡ false → drop_last (String.◌++◌ s t) ≡ String.◌++◌ s (drop_last t)
unfolding drop_last
drop_last-append [] t h = rw (nil-append t, nil-append (drop_last t)) refl
drop_last-append (c ∷ s) t h =
    rw
      (
        cons-append c s t,
        cons-append c s (drop_last t),
        drop_last-cons c (String.◌++◌ s t) (filled-append s t h),
        drop_last-append s t h,
      )
      refl

comma : (t : String) → String.◌++◌ "," t ≡ "," ∷ t
comma t = rw (cons-append "," "" t, nil-append t) refl

filled_label : (key value t : String) → is_blank (sprint (key ∷ ":" ∷ value ∷ "," ∷ t ∷ [])) ≡ false
filled_label key value t =
    filled-append key _ (filled-append ":" _ (filled-append value _ (rw (comma t) refl)))

regroup :
    (key value t : String)
    → String.◌++◌ key (String.◌++◌ ":" (String.◌++◌ value t))
      ≡ String.◌++◌ (sprint (key ∷ ":" ∷ value ∷ [])) t
regroup key value t = simp text_assoc

-- One label in front of the others.
drop_last-label :
    (key value t : String)
    → drop_last (sprint (key ∷ ":" ∷ value ∷ "," ∷ t ∷ []))
      ≡ String.◌++◌ (sprint (key ∷ ":" ∷ value ∷ [])) (drop_last (String.◌++◌ "," t))
drop_last-label key value t =
    rw (regroup key value (String.◌++◌ "," t)) (drop_last-append _ _ (rw (comma t) refl))

mapping_text-joined : (mm : Labels) → mapping_text mm ≡ joined mm
unfolding mapping_text label_text
mapping_text-joined [] = unfold drop_last in refl
mapping_text-joined ((key, value) ∷ []) =
    drop_last-label key value "" ∙ text_nil (sprint (key ∷ ":" ∷ value ∷ []))
mapping_text-joined ((key, value) ∷ m ∷ mm) =
    drop_last-label key value (label_text (m ∷ mm))
    ∙ ap (String.◌++◌ (sprint (key ∷ ":" ∷ value ∷ []))) (
        ap drop_last (comma (label_text (m ∷ mm)))
        ∙ drop_last-cons "," (label_text (m ∷ mm)) (filled_label m.0 m.1 (label_text mm))
        ∙ ap (λ s. "," ∷ s) (mapping_text-joined (m ∷ mm))
        ∙ sym (comma (joined (m ∷ mm))))

abbrev label : String × String → String
label (key, value) = sprint (key ∷ ":" ∷ value ∷ [])

colon : (t : String) → String.◌++◌ ":" t ≡ ":" ∷ t
colon t = rw (cons-append ":" "" t, nil-append t) refl

label-Lacks : (m : String × String) → IsPlainLabel m → Lacks b',' (label m)
label-Lacks (key, value) ((h, _, _), (k, _, _)) =
    rw (colon value) (Lacks-append b',' key (":" ∷ value) h (refl, k))

split-label : (m : String × String) → IsPlainLabel m → split b':' (label m) ≡ m.0 ∷ m.1 ∷ []
split-label (key, value) ((_, h, _), (_, k, _)) =
    rw (colon value, split-append b':' key value ":" h refl, split-Lacks b':' value k) refl

split-joined :
    (m : String × String) (mm : Labels)
    → All IsPlainLabel (m ∷ mm)
    → split b',' (joined (m ∷ mm)) ≡ map label (m ∷ mm)
split-joined m [] (h, _) = split-Lacks b',' (label m) (label-Lacks m h)
split-joined m (n ∷ mm) (h, k) =
    rw
      (
        comma (joined (n ∷ mm)),
        split-append b',' (label m) (joined (n ∷ mm)) "," (label-Lacks m h) refl,
        split-joined n mm k,
      )
      refl

put_label-label :
    (m : String × String) (acc : Labels)
    → IsPlainLabel m
    → lookup m.0 acc ≡ none
    → put_label (split b':' (label m)) acc ≡ some (acc ++ m ∷ [])
unfolding put_label
put_label-label (key, value) acc ((h1, h2, h3), (k1, k2, k3)) new =
    rw (split-label (key, value) ((h1, h2, h3), (k1, k2, k3)), h3, k3)
      (ap some (insert-new key value acc new))

parse_labels-labels :
    (acc mm : Labels)
    → All IsPlainLabel mm
    → AreNew acc mm
    → parse_labels (map label mm) acc ≡ some (acc ++ mm)
unfolding parse_labels
parse_labels-labels acc [] h k = ap some (sym (append-nil acc))
parse_labels-labels acc ((key, value) ∷ mm) (h, hs) (k, ks) =
    rw (put_label-label (key, value) acc h k) (
      parse_labels-labels (acc ++ (key, value) ∷ []) mm hs ks
      ∙ ap some (append_assoc acc ((key, value) ∷ []) mm))

filled_joined : (m : String × String) (mm : Labels) → is_blank (joined (m ∷ mm)) ≡ false
filled_joined (key, value) [] = filled-append key _ (rw (colon value) refl)
filled_joined (key, value) (n ∷ mm) =
    filled-append (label (key, value)) _ (rw (comma (joined (n ∷ mm))) refl)

-- The mapping that is written is read back as it was, in its order: for distinct networks, if the names
-- of networks and bridges have no comma, no colon and no space at their ends.
pub parse_mapping-mapping_text :
    (mm : Labels) → All IsPlainLabel mm → AreNew [] mm → parse_mapping (mapping_text mm) ≡ some mm
unfolding parse_mapping
parse_mapping-mapping_text [] h k = unfold mapping_text label_text drop_last in refl
parse_mapping-mapping_text (m ∷ mm) h k =
    rw
      (
        mapping_text-joined (m ∷ mm),
        split-joined m mm h,
        parse_labels-labels [] (m ∷ mm) h k,
        filled_joined m mm,
      )
      refl
