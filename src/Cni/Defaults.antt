-- ===== src/Cni/Defaults.antt =====
-- internal/pkg/cniserver/cni.go: which interfaces of a pod are given a default gateway.
use icn_nodus.Common.{
  if◌then◌else◌, String, ◌≡◌, refl, ap, ◌∙◌, Bool, true, false, not, ◌&&◌, ◌||◌, List, [], ◌∷◌,
  ◌==◌,
}
use icn_nodus.Cni.{OvnNetwork, decide}

-- Whether the loop of AddMultipleInterfaces gives each network a default gateway.
abbrev pub decisions : String → Bool → List OvnNetwork → List Bool
decisions if_name seen [] = []
decisions if_name seen (net ∷ nets) =
    let decided = decide if_name net seen in
    (decided.0 == "true") ∷ decisions if_name decided.1 nets

-- Whether each network is given a default gateway, and whether one has been asked for up to it.
abbrev pub choices : String → Bool → List OvnNetwork → List (Bool × Bool)
choices if_name seen [] = []
choices if_name seen (net ∷ nets) =
    let decided = decide if_name net seen in
    (decided.0 == "true", decided.1) ∷ choices if_name decided.1 nets

-- Whether a named network up to each one asks for a default gateway.
abbrev pub asked : Bool → List OvnNetwork → List Bool
asked seen [] = []
asked seen (net ∷ nets) =
    let seen' = seen || (not (net.interface == "*") && net.default_gateway == "true") in
    seen' ∷ asked seen' nets

abbrev pub both : List Bool → List Bool → List (Bool × Bool)
both [] bs = []
both (g ∷ gs) [] = []
both (g ∷ gs) (b ∷ bs) = (g, b) ∷ both gs bs

abbrev pub none_of : List OvnNetwork → List Bool
none_of [] = []
none_of (net ∷ nets) = false ∷ none_of nets

-- The first named network that asks for it has one, and none behind it; a network "*" before it has one
-- for the interface eth0.
abbrev pub first_asking : Bool → List OvnNetwork → List Bool
first_asking eth0 [] = []
first_asking eth0 (net ∷ nets) =
    if net.interface == "*"
    then eth0 ∷ first_asking eth0 nets
    else if net.default_gateway == "true"
    then true ∷ none_of nets
    else false ∷ first_asking eth0 nets

-- One round, on its tests.
round :
    (star asks eth0 seen : Bool) (wish : String) (after : Bool → List Bool)
    → (wish == "true") ≡ asks
    → (let asks' = not star && asks in
        let seen' = seen || asks' in
        ((if star
            then (if not eth0 then "false" else if seen' then "false" else "true")
            else (if asks' && seen then "false" else wish))
          == "true")
        ∷ after seen')
      ≡ (if star
          then (eth0 && not seen) ∷ after seen
          else if asks
          then not seen ∷ after true
          else false ∷ after seen)
round true asks true true wish after h = refl
round true asks true false wish after h = refl
round true asks false true wish after h = refl
round true asks false false wish after h = refl
round false true eth0 true wish after h = refl
round false true eth0 false wish after h = rw h refl
round false false eth0 true wish after h = rw h refl
round false false eth0 false wish after h = rw h refl

or_both :
    (a b : Bool) (l : List Bool)
    → (if a then false ∷ l else if b then false ∷ l else false ∷ l) ≡ false ∷ l
or_both true b l = refl
or_both false true l = refl
or_both false false l = refl

and_false : (b : Bool) → (b && false) ≡ false
and_false true = refl
and_false false = refl

and_true : (b : Bool) → (b && true) ≡ b
and_true true = refl
and_true false = refl

decisions-seen :
    (if_name : String) (nets : List OvnNetwork) → decisions if_name true nets ≡ none_of nets
unfolding decide
decisions-seen if_name [] = refl
decisions-seen if_name (net ∷ nets) =
    round (net.interface == "*") (net.default_gateway == "true") (if_name == "eth0") true
      net.default_gateway (λ seen. decisions if_name seen nets) refl
    ∙ rw (and_false (if_name == "eth0")) (
        or_both (net.interface == "*") (net.default_gateway == "true")
          (decisions if_name true nets))
    ∙ ap (λ l. false ∷ l) (decisions-seen if_name nets)

-- The first named network that asks for a default gateway gets it, and no network behind it does; of the
-- networks "*", those before it get one if the request is for the interface eth0, and no other network
-- does.
decisions-first_asking :
    (if_name : String) (nets : List OvnNetwork)
    → decisions if_name false nets ≡ first_asking (if_name == "eth0") nets
unfolding decide
decisions-first_asking if_name [] = refl
decisions-first_asking if_name (net ∷ nets) =
    round (net.interface == "*") (net.default_gateway == "true") (if_name == "eth0") false
      net.default_gateway (λ seen. decisions if_name seen nets) refl
    ∙ rw
        (
          and_true (if_name == "eth0"),
          decisions-seen if_name nets,
          decisions-first_asking if_name nets,
        )
        refl

choices-decisions :
    (if_name : String) (seen : Bool) (nets : List OvnNetwork)
    → choices if_name seen nets ≡ both (decisions if_name seen nets) (asked seen nets)
unfolding decide
choices-decisions if_name seen [] = refl
choices-decisions if_name seen (net ∷ nets) =
    let decided = decide if_name net seen in
    ap (λ (l : List (Bool × Bool)). (decided.0 == "true", decided.1) ∷ l)
      (choices-decisions if_name decided.1 nets)

pub choices-first_asking :
    (if_name : String) (nets : List OvnNetwork)
    → choices if_name false nets ≡ both (first_asking (if_name == "eth0") nets) (asked false nets)
choices-first_asking if_name nets =
    choices-decisions if_name false nets
    ∙ ap (λ l. both l (asked false nets)) (decisions-first_asking if_name nets)
