-- ===== src/Ovn/Gateway/Cache.antt =====
-- The cache of gateways of internal/pkg/ovn/ovn.go, and the wait for a port's addresses.
use icn_nodus.Common.{
  if◌then◌else◌, is_blank, split, String, ◌≡◌, refl, sym, ap, ◌∙◌, Bool, true, false, Option, none,
  some, List, [], ◌∷◌, ◌==◌, eq_refl,
}
use icn_nodus.Api.{Labels, lookup, insert}
use icn_nodus.Effect.{
  Error, Result, ok, err, Env, World, done, ◌>>=◌, ◌>>◌, pure, raise, of_result, effects,
}
use icn_nodus.Ovn.Gateway.{
  parse_gateways, set_cache, get_cache, gateway_text, get_gateway_from_switch,
}
use icn_nodus.Effect.Inverse.{>>=-eq-done, done-eq-done}

lookup-insert : (k v : String) (m : Labels) → lookup k (insert k v m) ≡ some v
unfolding lookup insert
lookup-insert k v [] = rw (eq_refl k) refl
lookup-insert k v ((j, x) ∷ m) = at_key (j == k) refl (lookup-insert k v m)
  where
    at_key :
        (b : Bool)
        → (j == k) ≡ b
        → lookup k (insert k v m) ≡ some v
        → lookup k (insert k v ((j, x) ∷ m)) ≡ some v
    at_key true e h = rw (e, eq_refl k) refl
    at_key false e h = rw (e, e) h

module _ (switch : String) (env : Env) where
  kept :
      (t text : String) (w v : World)
      → lookup switch w.gateway_cache ≡ some t
      → done t w ≡ done text v
      → lookup switch v.gateway_cache ≡ some text
  kept t text w v e h =
      let (p, q) = done-eq-done h in
      ap (λ (u : World). lookup switch u.gateway_cache) (sym q) ∙ e ∙ ap some p

  stored :
      (b : Bool) (e : Error) (t text : String) (w v : World)
      → (if b
            then raise e
            else (get_cache >>= λ cache. set_cache (insert switch t cache) >> pure t))
          env w
        ≡ done text v
      → lookup switch v.gateway_cache ≡ some text
  unfolding effects
  stored true e t text w v h = cc
  stored false e t text w v h = kept t text _ v (lookup-insert switch t w.gateway_cache) h

  -- After the text of a switch's gateways was found, it is in the cache.
  gateway_text-cached :
      (o : Option String) (w v : World) (text : String)
      → lookup switch w.gateway_cache ≡ o
      → gateway_text switch o env w ≡ done text v
      → lookup switch v.gateway_cache ≡ some text
  unfolding gateway_text pure
  gateway_text-cached (some t) w v text e h = kept t text w v e h
  gateway_text-cached none w v text e h =
      let (t, u, p, q) = >>=-eq-done _ _ env w text v h in stored (is_blank t) _ t text u v q

  -- What is in the cache is the answer, without a call.
  hit :
      (text : String) (w : World)
      → lookup switch w.gateway_cache ≡ some text
      → get_gateway_from_switch switch env w ≡ of_result (parse_gateways (split b',' text)) env w
  unfolding get_gateway_from_switch gateway_text effects
  hit text w e = rw (e) refl

of_result-eq-done :
    {A : Type 0} (r : Result A) (a : A) (env : Env) (w v : World)
    → of_result r env w ≡ done a v
    → (r ≡ ok a) × (w ≡ v)
unfolding of_result
of_result-eq-done (ok b) a env w v h = let (p, q) = done-eq-done h in (ap ok p, q)
of_result-eq-done (err e) a env w v h = cc

of_result-ok : {A : Type 0} (a : A) (env : Env) (w : World) → of_result (ok a) env w ≡ done a w
unfolding of_result
of_result-ok a env w = refl

-- The addresses of a switch's gateways stay the ones that were found first: once they were found, the
-- same question in any later world whose cache has the switch's entry unchanged has the same answer,
-- makes no call and changes nothing.
pub get_gateway_from_switch-cached :
    (switch : String) (env : Env) (w v later : World) (gateways : List String × List String)
    → get_gateway_from_switch switch env w ≡ done gateways v
    → lookup switch later.gateway_cache ≡ lookup switch v.gateway_cache
    → get_gateway_from_switch switch env later ≡ done gateways later
unfolding get_gateway_from_switch
get_gateway_from_switch-cached switch env w v later gateways h same =
    let (cache, u, p, q) = >>=-eq-done _ _ env w gateways v h in
    let (text, x, p', q') = >>=-eq-done _ _ env u gateways v q in
    let (c, d) = done-eq-done p in
    let entry =
      gateway_text-cached switch env (lookup switch cache) u x text
        (ap (λ (y : World). lookup switch y.gateway_cache) (sym d) ∙ ap (lookup switch) c) p' in
    let (r, y) = of_result-eq-done _ gateways env x v q' in
    let here = same ∙ ap (λ (z : World). lookup switch z.gateway_cache) (sym y) ∙ entry in
    hit switch env text later here
    ∙ ap (λ o. of_result o env later) r
    ∙ of_result-ok gateways env later
