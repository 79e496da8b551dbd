-- ===== src/Cni/Rounds.antt =====
-- internal/pkg/cniserver/cni.go: the rounds of the loop of AddMultipleInterfaces.
use icn_nodus.Common.{
  if◌then◌else◌, All, ℕ, ◌+◌, String, ◌≡◌, refl, sym, ap, Bool, true, false, not, Option, none,
  some, List, [], ◌∷◌, ◌==◌,
}
use icn_nodus.Effect.{Env, World, done, M, ◌>>=◌, pure, panic}
use icn_nodus.Effect.Inverse.{>>=-eq-done, done-eq-done}
use icn_nodus.Cni.{
  OvnNetwork, CniRequest, CniResult, CniClients, decide, merge_with_result, is_complete, Wanted,
  no_list, Choice, ends, panics, left_out, goes_on, choose, attach_net, attach_nets,
}
use icn_nodus.Cni.Defaults.{choices}
use icn_nodus.Cni.Parts.{
  Part, merged, Given, is_selected, Agrees, choose-Agrees, selected, given, Ran, IsFor,
  none-is-some, panic-is-done, attachment_of, attach_net-Attaches,
}

-- A run of the loop from a result so far, which configures the chosen networks.
pub record Looped (clients : CniClients) (req : CniRequest) (namespace pod : String) (env : Env)
    (w v : World) (found : Option CniResult) (chosen : List Given) (r : CniResult) : Type 0 where
  pub pieces : List Part
  pub ran : Ran clients req env w pieces v
  pub are : given pieces ≡ chosen
  pub named : All (IsFor namespace pod) pieces
  pub merges : merged found pieces ≡ some r

module _ (clients : CniClients) (req : CniRequest) (namespace pod : String) where
  -- One round behind the tests of the network, with the rest of the loop.
  round :
      (choice : Choice) (is_chosen : Bool) (net : OvnNetwork) (gateway : String) (number : ℕ)
      (seen : Bool) (found : Option CniResult) (k : Option CniResult → M (Option CniResult))
      (chosen : List Given) (env : Env) (w v : World) (r : CniResult)
      → Agrees choice is_chosen
      → ((f : Option CniResult) (u : World)
          → k f env u ≡ done (some r) v
          → Looped clients req namespace pod env u v f chosen r)
      → (let body : M (Option CniResult) = elim choice [
        | ends ↦ pure none
        | panics ↦ panic
        | left_out ↦ k found
        | goes_on ↦ attach_net clients req namespace pod net gateway number seen >>= λ made.
            elim made [ none ↦ pure none | some x ↦ k (some (merge_with_result x found)) ]
      ] in
          body env w ≡ done (some r) v)
      → Looped clients req namespace pod env w v found
          (if is_chosen then (net, number, gateway == "true", seen) ∷ chosen else chosen)
          r
  round ends is_chosen net gateway number seen found k chosen env w v r agrees rest h =
      elim (none-is-some env w v r h) [ ]
  round panics is_chosen net gateway number seen found k chosen env w v r agrees rest h =
      elim (panic-is-done env w v (some r) h) [ ]
  round left_out is_chosen net gateway number seen found k chosen env w v r agrees rest h =
      rw agrees (rest found w h)
  round goes_on is_chosen net gateway number seen found k chosen env w v r agrees rest h =
      let (made, u, p, q) =
        >>=-eq-done (attach_net clients req namespace pod net gateway number seen) _ env w (some r)
          v h in
      rw agrees (of_made made u p q)
    where
      of_made :
          (made : Option CniResult) (u : World)
          → attach_net clients req namespace pod net gateway number seen env w ≡ done made u
          → (let body : M (Option CniResult) = elim made [
            | none ↦ pure none
            | some x ↦ k (some (merge_with_result x found))
          ] in
              body env u ≡ done (some r) v)
          → Looped clients req namespace pod env w v found
              ((net, number, gateway == "true", seen) ∷ chosen)
              r
      of_made none u p q = elim (none-is-some env u v r q) [ ]
      of_made (some x) u p q =
          let (l, configured, is_part) =
            attach_net-Attaches clients req namespace pod net gateway number seen env w u x p in
          let behind = rest _ u q in
          record {
            pieces =
                record {
                  attachment = attachment_of clients req namespace pod net gateway number seen;
                  made = l;
                }
                ∷ behind.pieces;
            ran = (u, configured, behind.ran);
            are = ap (λ (g : List Given). (net, number, gateway == "true", seen) ∷ g) behind.are;
            named = ((refl, refl), behind.named);
            merges = rw (← is_part) behind.merges;
          }

  pub if_complete :
      (b : Bool) (m : M (Option CniResult)) (env : Env) (w v : World) (r : CniResult)
      → (if b then pure none else m) env w ≡ done (some r) v
      → m env w ≡ done (some r) v
  if_complete true m env w v r h = elim (none-is-some env w v r h) [ ]
  if_complete false m env w v r h = h

  -- The loop configures the wanted networks, each with its place in the list and the choice of the default
  -- gateway that the networks before it leave, and merges what they give.
  pub attach_nets-Looped :
      (wanted : Wanted) (number : ℕ) (seen : Bool) (nets : List OvnNetwork)
      (found : Option CniResult) (env : Env) (w v : World) (r : CniResult)
      → attach_nets clients req namespace pod wanted number seen nets found env w ≡ done (some r) v
      → Looped clients req namespace pod env w v found
          (selected wanted number nets (choices req.if_name seen nets))
          r
  unfolding attach_nets pure
  attach_nets-Looped wanted number seen [] found env w v r h = record {
    pieces = [];
    ran = sym (done-eq-done h).1;
    are = refl;
    named = tt;
    merges = (done-eq-done h).0;
  }
  attach_nets-Looped wanted number seen (net ∷ nets) found env w v r h =
      let decided = decide req.if_name net seen in
      round (choose wanted net) (is_selected wanted net) net decided.0 (number + 1) decided.1 found
        (attach_nets clients req namespace pod wanted (number + 1) decided.1 nets)
        (selected wanted (number + 1) nets (choices req.if_name decided.1 nets)) env w v r
        (choose-Agrees wanted net)
        (λ f u. attach_nets-Looped wanted (number + 1) decided.1 nets f env u v r)
        (if_complete (not (is_complete net)) _ env w v r h)

  -- A request that names a network has no result without the annotation that lists them.
  pub attach_nets-no_list :
      (nets : List OvnNetwork) (env : Env) (w v : World) (r : CniResult)
      → ¬ (attach_nets clients req namespace pod no_list 0 false nets none env w ≡ done (some r) v)
  unfolding attach_nets choose
  attach_nets-no_list [] env w v r h = none-is-some env w v r h
  attach_nets-no_list (net ∷ nets) env w v r h =
      panic-is-done env w v (some r) (if_complete (not (is_complete net)) _ env w v r h)
