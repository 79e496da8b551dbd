-- ===== src/Cni/Attached.antt =====
-- internal/pkg/cniserver/cni.go: what AddMultipleInterfaces gives back, by the networks that it configured.
use icn_nodus.Common.{
  if◌then◌else◌, is_blank, length, All, ◌≤◌, String, ◌≡◌, refl, sym, ap, ◌∙◌, Bool, true, false,
  ◌||◌, Option, none, some, List, [], ◌∷◌, ◌==◌,
}
use icn_nodus.Effect.{Env, World, done, M, pure}
use icn_nodus.Effect.Inverse.{>>=-eq-done, done-eq-done}
use icn_nodus.Cni.{
  OvnNetwork, CniRequest, CniResult, Attachment, CniClients, requested_interface, Wanted, every,
  no_list, only, wanted_of, network_name, with_networks, add_multiple_interfaces,
}
use icn_nodus.Cni.Defaults.{choices, asked, both, first_asking, choices-first_asking}
use icn_nodus.Cni.Indices.{IsClosed}
use icn_nodus.Cni.Parts.{Part, selected, given, Ran, IsFor, none-is-some}
use icn_nodus.Cni.Rounds.{Looped, if_complete, attach_nets-Looped, attach_nets-no_list}
use icn_nodus.Cni.Merging.{
  resolved, all_interfaces, all_addresses, all_routes, HasTwo, merged_parts-Holds,
}

-- Which interfaces the request wants: all where it names no network, else the one that the annotation
-- gives for the name.
abbrev pub WantedBy : CniClients → String → String → Wanted → Type 0
WantedBy clients name annotation every = is_blank name ≡ true
WantedBy clients name annotation no_list = ⊥
WantedBy clients name annotation (only intf) =
    (is_blank name ≡ false)
    × (l : List (String × String)) × (clients.nfn_interfaces annotation ≡ some l)
    × (intf ≡ requested_interface l name)

-- The same before the loop, where a missing list is not yet followed.
abbrev ReadAs : CniClients → String → String → Wanted → Type 0
ReadAs clients name annotation every = is_blank name ≡ true
ReadAs clients name annotation no_list = Unit {0}
ReadAs clients name annotation (only intf) = WantedBy clients name annotation (only intf)

module _ (clients : CniClients) (name annotation : String) where
  of_branches :
      (blank missing : Bool) (o : Option (List (String × String))) (y : Wanted) (env : Env)
      (w u : World)
      → is_blank name ≡ blank
      → clients.nfn_interfaces annotation ≡ o
      → (let body : M (Option Wanted) =
            if blank
            then pure (some every)
            else if missing
            then pure (some no_list)
            else pure
                (elim o [ none ↦ none | some l ↦ some (only (requested_interface l name)) ]) in
          body env w ≡ done (some y) u)
      → (u ≡ w) × ReadAs clients name annotation y
  unfolding pure
  of_branches true missing o y env w u b e h =
      let same : every ≡ y = cc in (sym (done-eq-done h).1, rw (← same) b)
  of_branches false true o y env w u b e h =
      let same : no_list ≡ y = cc in (sym (done-eq-done h).1, rw (← same) tt)
  of_branches false false none y env w u b e h = cc
  of_branches false false (some l) y env w u b e h =
      let same : only (requested_interface l name) ≡ y = cc in
      (sym (done-eq-done h).1, rw (← same) (b, l, e, refl))

  wanted_of-ReadAs :
      (y : Wanted) (env : Env) (w u : World)
      → wanted_of clients name annotation env w ≡ done (some y) u
      → (u ≡ w) × ReadAs clients name annotation y
  wanted_of-ReadAs y env w u h =
      of_branches (is_blank name) (is_blank annotation) (clients.nfn_interfaces annotation) y env w
        u refl refl h

listed :
    (blank : Bool) (o : Option (List OvnNetwork)) (nets : List OvnNetwork)
    → (if blank then none else o) ≡ some nets
    → o ≡ some nets
listed true o nets h = cc
listed false o nets h = h

-- What the result of AddMultipleInterfaces is made of: the parts in their order, which are the wanted
-- networks with their places and the default gateways, and the result that they add up to.
pub record Attached (clients : CniClients) (req : CniRequest) (namespace pod : String) (env : Env)
    (w v : World) (wanted : Wanted) (nets : List OvnNetwork) (r : CniResult) : Type 0 where
  pub parts : List Part
  pub configured : Ran clients req env w parts v
  pub are_wanted :
      given parts
      ≡ selected wanted 0 nets (both (first_asking (req.if_name == "eth0") nets) (asked false nets))
  pub for_pod : All (IsFor namespace pod) parts
  pub interfaces : r.interfaces ≡ all_interfaces parts
  pub addresses : resolved r.interfaces r.ips ≡ all_addresses parts
  pub routes : r.routes ≡ all_routes parts
  pub closed : IsClosed r

-- The run of AddMultipleInterfaces: which interfaces are wanted, the networks of the annotation, and what
-- becomes of them.
pub record AttachedRun (clients : CniClients) (req : CniRequest) (namespace pod : String)
    (nfn_annotation ovn_annotation : String) (env : Env) (w v : World) (r : CniResult)
    : Type 0 where
  pub wanted : Wanted
  pub nets : List OvnNetwork
  pub is_wanted : WantedBy clients (network_name req.nfn_network) nfn_annotation wanted
  pub annotated : clients.ovn_networks ovn_annotation ≡ some nets
  pub attached : Attached clients req namespace pod env w v wanted nets r

module _ (clients : CniClients) (req : CniRequest) (namespace pod : String) where
  with_networks-no_list :
      (o : Option (List OvnNetwork)) (env : Env) (w v : World) (r : CniResult)
      → ¬ (with_networks clients req namespace pod no_list o env w ≡ done (some r) v)
  with_networks-no_list none env w v r h = none-is-some env w v r h
  with_networks-no_list (some nets) env w v r h =
      attach_nets-no_list clients req namespace pod nets env w v r
        (if_complete clients req namespace pod (is_blank namespace || is_blank pod) _ env w v r h)

  is_given :
      (y : Wanted) (name annotation : String) (o : Option (List OvnNetwork)) (env : Env)
      (w v : World) (r : CniResult)
      → ReadAs clients name annotation y
      → with_networks clients req namespace pod y o env w ≡ done (some r) v
      → WantedBy clients name annotation y
  is_given every name annotation o env w v r a h = a
  is_given no_list name annotation o env w v r a h = with_networks-no_list o env w v r h
  is_given (only intf) name annotation o env w v r a h = a

  module _
      (makes_two : (a : Attachment) (env : Env) (w v : World) (l : List String)
        → clients.configure req a env w ≡ done l v
        → 2 ≤ length l) where
    ran-HasTwo :
        (parts : List Part) (env : Env) (w v : World)
        → Ran clients req env w parts v
        → All HasTwo parts
    ran-HasTwo [] env w v h = tt
    ran-HasTwo (p ∷ ps) env w v (u, h, rest) =
        (makes_two p.attachment env w u p.made h, ran-HasTwo ps env u v rest)

    Looped-Attached :
        (env : Env) (w v : World) (wanted : Wanted) (nets : List OvnNetwork) (r : CniResult)
        → Looped clients req namespace pod env w v none
            (selected wanted 0 nets (choices req.if_name false nets))
            r
        → Attached clients req namespace pod env w v wanted nets r
    Looped-Attached env w v wanted nets r l =
        let holds = merged_parts-Holds l.pieces r (ran-HasTwo l.pieces env w v l.ran) l.merges in
        record {
          parts = l.pieces;
          configured = l.ran;
          are_wanted = l.are ∙ ap (selected wanted 0 nets) (choices-first_asking req.if_name nets);
          for_pod = l.named;
          interfaces = holds.is_interfaces;
          addresses = holds.is_addresses;
          routes = holds.is_routes;
          closed = holds.closed;
        }

    with_networks-Attached :
        (wanted : Wanted) (o : Option (List OvnNetwork)) (env : Env) (w v : World) (r : CniResult)
        → with_networks clients req namespace pod wanted o env w ≡ done (some r) v
        → (nets : List OvnNetwork) × (o ≡ some nets)
          × Attached clients req namespace pod env w v wanted nets r
    with_networks-Attached wanted none env w v r h = elim (none-is-some env w v r h) [ ]
    with_networks-Attached wanted (some nets) env w v r h = (
      nets,
      refl,
      Looped-Attached env w v wanted nets r (
          attach_nets-Looped clients req namespace pod wanted 0 false nets none env w v r (
            if_complete clients req namespace pod (is_blank namespace || is_blank pod) _ env w v r
              h)),
    )

    -- If each configuration of a network that succeeds gives at least two interfaces, then a result that
    -- AddMultipleInterfaces gives back is made of the wanted networks of the annotation, configured in
    -- their order for the pod, each with its place in the annotation: all of them, or those on the
    -- interface of the requested network. The first named network of the annotation that asks for a
    -- default gateway is the one that gets it, also where it is not wanted itself; a network "*" before it
    -- gets one for the interface eth0, and no other network does. Each is told whether a named network up to
    -- it asks for one. The interfaces of the result are those
    -- that were made, in order; each address of a network stands with its gateway and refers to the second
    -- interface that was made for this network, however many were merged before it; and the routes lead to
    -- the gateways of the networks with a default gateway.
    pub add_multiple_interfaces-AttachedRun :
        (nfn_annotation ovn_annotation : String) (env : Env) (w v : World) (r : CniResult)
        → add_multiple_interfaces clients req namespace pod nfn_annotation ovn_annotation env w
          ≡ done (some r) v
        → AttachedRun clients req namespace pod nfn_annotation ovn_annotation env w v r
    unfolding add_multiple_interfaces
    add_multiple_interfaces-AttachedRun nfn_annotation ovn_annotation env w v r h =
        let (x, u, p, q) =
          >>=-eq-done (wanted_of clients (network_name req.nfn_network) nfn_annotation) _ env w
            (some r) v h in
        by_wanted x u p q
      where
        by_wanted :
            (x : Option Wanted) (u : World)
            → wanted_of clients (network_name req.nfn_network) nfn_annotation env w ≡ done x u
            → (let body : M (Option CniResult) = elim x [
              | none ↦ pure none
              | some y ↦
                  with_networks clients req namespace pod y
                    (if is_blank ovn_annotation then none else clients.ovn_networks ovn_annotation)
            ] in
                body env u ≡ done (some r) v)
            → AttachedRun clients req namespace pod nfn_annotation ovn_annotation env w v r
        by_wanted none u p q = elim (none-is-some env u v r q) [ ]
        by_wanted (some y) u p q =
            let (world, read) = wanted_of-ReadAs clients _ nfn_annotation y env w u p in
            let (nets, is_nets, attached) = with_networks-Attached y _ env w v r (rw world at q) in
            record {
              wanted = y;
              nets = nets;
              is_wanted = is_given y _ nfn_annotation _ env u v r read q;
              annotated = listed (is_blank ovn_annotation) _ nets is_nets;
              attached = attached;
            }
