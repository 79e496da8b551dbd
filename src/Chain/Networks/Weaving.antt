-- ===== src/Chain/Networks/Weaving.antt =====
-- internal/pkg/utils/chain.go: CheckForOnlyNFLabel puts networks between the functions of a chain, and
-- CalculateRoutes reads the functions and the networks back.
use Prim.Native.String
use Prim.Native.String.{[], ◌∷◌}
use text.Mathlib.TextLemmas.{cons-append, nil-append}
use icn_nodus.Common.{
  if◌then◌else◌, sprint, is_blank, split, itoa, All, ℕ, ◌+◌, String, ◌≡◌, refl, sym, ap, ◌∙◌, ◌≢◌,
  Bool, true, false, none, some, List, [], ◌∷◌, ◌++◌, append-nil, append_assoc,
}
use icn_nodus.Common.Text.Splitting.{
  Lacks, split-Lacks, Lacks-append, split-parts, split-ne-nil, split-both,
}
use icn_nodus.Common.Text.Digits.{Lacks-itoa}
use icn_nodus.Effect.Inverse.{>>=-eq-done}
use icn_nodus.Chain.Networks.{
  any_net_label, virtual_net, extend_chain, updated_chain, check_for_only_nf_label,
}
use icn_nodus.Chain.{deployments_of, networks_of, init_of, inner_labels, chain_labels}
use icn_nodus.Api.{NetworkChaining}
use icn_nodus.Effect.{Error, Env, World, done, pure, raise}

-- The functions, each with the network behind it, from number i.
abbrev pub woven : ℕ → List String → List String
woven i [] = []
woven i (nf ∷ nfs) = nf ∷ virtual_net (i + 1) ∷ woven (i + 1) nfs

-- The networks of numbers i + 1, i + 2 and so on, one between each two functions.
abbrev pub nets_between : ℕ → List String → List String
nets_between i [] = []
nets_between i (nf ∷ []) = []
nets_between i (nf ∷ other ∷ nfs) = virtual_net (i + 1) ∷ nets_between (i + 1) (other ∷ nfs)

Lacks-virtual_net : (i : ℕ) → Lacks b',' (virtual_net i)
unfolding virtual_net
Lacks-virtual_net i =
    Lacks-append b',' "net" _ (refl, (refl, (refl, tt)))
      (Lacks-append b',' "=" _ (refl, tt)
        (Lacks-append b',' "virtual-net" (itoa i)
          (refl, (refl, (refl, (refl, (refl, (refl, (refl, (refl, (refl, (refl, (refl, tt)))))))))))
          (Lacks-itoa i)))

comma-append : (t : String) → String.◌++◌ "," t ≡ "," ∷ t
comma-append t = cons-append "," [] t ∙ ap (λ s. "," ∷ s) (nil-append t)

-- A text with a part put behind it.
split_behind :
    (s t : String)
    → Lacks b',' t
    → split b',' (String.◌++◌ s (String.◌++◌ "," t)) ≡ split b',' s ++ t ∷ []
split_behind s t h =
    rw (comma-append t)
      (split-both b',' s t "," refl ∙ ap (λ l. split b',' s ++ l) (split-Lacks b',' t h))

abbrev round_text : ℕ → String → String → String
round_text i s nf = sprint (s ∷ "," ∷ nf ∷ "," ∷ virtual_net (i + 1) ∷ [])

split-round_text :
    (i : ℕ) (s nf : String)
    → Lacks b',' nf
    → split b',' (round_text i s nf) ≡ split b',' s ++ nf ∷ virtual_net (i + 1) ∷ []
split-round_text i s nf h =
    let v = virtual_net (i + 1) in
    rw (comma-append (String.◌++◌ nf (String.◌++◌ "," v))) (
      split-both b',' s (String.◌++◌ nf (String.◌++◌ "," v)) "," refl
      ∙ ap (λ l. split b',' s ++ l)
          (split_behind nf v (Lacks-virtual_net (i + 1))
            ∙ ap (λ l. l ++ v ∷ []) (split-Lacks b',' nf h)))

split-extend_chain :
    (i : ℕ) (s : String) (nfs : List String)
    → All (Lacks b',') nfs
    → split b',' (extend_chain i s nfs) ≡ split b',' s ++ woven i nfs
unfolding extend_chain
split-extend_chain i s [] h = sym (append-nil (split b',' s))
split-extend_chain i s (nf ∷ nfs) (h, k) =
    split-extend_chain (i + 1) (round_text i s nf) nfs k
    ∙ ap (λ l. l ++ woven (i + 1) nfs) (split-round_text i s nf h)
    ∙ append_assoc (split b',' s) (nf ∷ virtual_net (i + 1) ∷ []) (woven (i + 1) nfs)

-- The text of the new chain has all of its parts in order.
split-updated_chain :
    (nf : String) (nfs : List String)
    → All (Lacks b',') (nf ∷ nfs)
    → split b',' (updated_chain (nf ∷ nfs)) ≡ virtual_net 0 ∷ woven 0 (nf ∷ nfs)
unfolding updated_chain
split-updated_chain nf nfs (h, k) =
    let start = sprint (virtual_net 0 ∷ "," ∷ nf ∷ []) in
    split-extend_chain 1 (sprint (start ∷ "," ∷ virtual_net 1 ∷ [])) nfs k
    ∙ ap (λ l. l ++ woven 1 nfs)
        (split_behind start (virtual_net 1) (Lacks-virtual_net 1)
          ∙ ap (λ l. l ++ virtual_net 1 ∷ [])
              (split_behind (virtual_net 0) nf h
                ∙ ap (λ l. l ++ nf ∷ []) (split-Lacks b',' (virtual_net 0) (Lacks-virtual_net 0))))

deployments_of-woven :
    (i : ℕ) (nf : String) (nfs : List String)
    → deployments_of (init_of (woven i (nf ∷ nfs))) ≡ nf ∷ nfs
unfolding deployments_of
deployments_of-woven i nf [] = refl
deployments_of-woven i nf (other ∷ nfs) = ap (λ l. nf ∷ l) (deployments_of-woven (i + 1) other nfs)

networks_of-woven :
    (i : ℕ) (nf : String) (nfs : List String)
    → networks_of (init_of (woven i (nf ∷ nfs))) ≡ nets_between i (nf ∷ nfs)
unfolding networks_of
networks_of-woven i nf [] = refl
networks_of-woven i nf (other ∷ nfs) =
    ap (λ l. virtual_net (i + 1) ∷ l) (networks_of-woven (i + 1) other nfs)

-- What the calculation of routes reads in the new chain: the functions of the old one, and a network
-- between each two of them.
pub record ReadsBack (old new : NetworkChaining) : Type 0 where
  pub middle : List String
  pub inner : inner_labels (chain_labels new) ≡ pure middle
  pub deployments : deployments_of middle ≡ chain_labels old
  pub networks : networks_of middle ≡ nets_between 0 (chain_labels old)

abbrev pub with_chain : NetworkChaining → String → NetworkChaining
with_chain cr chain = record cr { network_chain = chain }

woven-ReadsBack :
    (cr : NetworkChaining) (nf : String) (nfs : List String)
    → chain_labels cr ≡ nf ∷ nfs
    → All (Lacks b',') (nf ∷ nfs)
    → ReadsBack cr (with_chain cr (updated_chain (nf ∷ nfs)))
unfolding chain_labels inner_labels
woven-ReadsBack cr nf nfs e h = record {
  middle = init_of (woven 0 (nf ∷ nfs));
  inner = ap inner_labels (split-updated_chain nf nfs h);
  deployments = deployments_of-woven 0 nf nfs ∙ sym e;
  networks = networks_of-woven 0 nf nfs ∙ ap (nets_between 0) (sym e);
}

parts-ReadsBack :
    (cr : NetworkChaining) (labels : List String)
    → chain_labels cr ≡ labels
    → labels ≢ []
    → All (Lacks b',') labels
    → ReadsBack cr (with_chain cr (updated_chain labels))
parts-ReadsBack cr [] e ne h = absurd (ne refl)
parts-ReadsBack cr (nf ∷ nfs) e ne h = woven-ReadsBack cr nf nfs e h

chain_labels-ReadsBack :
    (cr : NetworkChaining) → ReadsBack cr (with_chain cr (updated_chain (chain_labels cr)))
unfolding chain_labels
chain_labels-ReadsBack cr =
    parts-ReadsBack cr (chain_labels cr) refl (split-ne-nil b',' cr.network_chain)
      (split-parts b',' cr.network_chain)

chosen_chain :
    (has blank : Bool) (e : Error) (updated chain : String) (env : Env) (u v : World)
    → (if has then pure none else if blank then raise e else pure (some updated)) env u
      ≡ done (some chain) v
    → updated ≡ chain
unfolding pure raise
chosen_chain true blank e updated chain env u v h = cc
chosen_chain false true e updated chain env u v h = cc
chosen_chain false false e updated chain env u v h = cc

-- If CheckForOnlyNFLabel returns a new chain, then its labels between the first and the last are read
-- back as the functions of the old chain, in their order, and as one new network between each two of
-- them.
pub check_for_only_nf_label-ReadsBack :
    (cr : NetworkChaining) (env : Env) (w v : World) (chain : String)
    → check_for_only_nf_label cr env w ≡ done (some chain) v
    → ReadsBack cr (with_chain cr chain)
unfolding check_for_only_nf_label
check_for_only_nf_label-ReadsBack cr env w v chain h =
    let (has, u, p, q) = >>=-eq-done (any_net_label (chain_labels cr)) _ env w (some chain) v h in
    let e =
      chosen_chain has (is_blank (updated_chain (chain_labels cr))) _
        (updated_chain (chain_labels cr)) chain env u v q in
    rw (← e) (chain_labels-ReadsBack cr)
