-- ===== src/Pool/Recording.antt =====
-- What CreateNetworkFromPool of internal/pkg/network/pool.go has done when it returns.
use icn_nodus.Common.{
  if◌then◌else◌, String, ◌≡◌, refl, sym, ap, ◌∙◌, Bool, true, false, Option, none, some, List, ◌∷◌,
  ◌==◌,
}
use icn_nodus.Api.{IpSubnet, NetworkPool}
use icn_nodus.Effect.{
  Error, message, Result, ok, err, Event, get_pools, create_network, watch_network, update_pools,
  Env, World, done, M, ◌>>=◌, ◌>>◌, pure, raise, check, ask, of_result, log,
}
use icn_nodus.Effect.Inverse.{>>=-eq-done, done-eq-done}
use icn_nodus.Pool.{
  create_network_object, update_network_pool, choose_pool, use_choice, allocate, no_config,
  create_network_from_pool,
}

abbrev plus : World → Event → World
plus w e = record w { trace = e ∷ w.trace }

module _ {B : Type 0} (env : Env) (w v : World) (b : B) where
  of_result-then :
      {A : Type 0} (r : Result A) (f : A → M B)
      → (of_result r >>= f) env w ≡ done b v
      → (a : A) × (r ≡ ok a) × (f a env w ≡ done b v)
  unfolding of_result ◌>>=◌
  of_result-then (ok a) f h = (a, refl, h)
  of_result-then (err e) f h = cc

  check-then :
      (o : Option Error) (k : M B)
      → (check o >>= λ _. k) env w ≡ done b v
      → (o ≡ none) × (k env w ≡ done b v)
  unfolding check ◌>>=◌
  check-then none k h = (refl, h)
  check-then (some e) k h = cc

only_created :
    (b : Bool) (env : Env) (w v : World)
    → (if b then pure tt else raise (message "Network is not created")) env w ≡ done tt v
    → (b ≡ true) × (v ≡ w)
unfolding pure raise
only_created true env w v h = (refl, sym (done-eq-done h).1)
only_created false env w v h = cc

last_check :
    (o : Option Error) (env : Env) (w v : World) → check o env w ≡ done tt v → (o ≡ none) × (v ≡ w)
unfolding check
last_check none env w v h = (refl, sym (done-eq-done h).1)
last_check (some e) env w v h = cc

-- The steps behind an accepted creation.
abbrev watched_steps : IpSubnet → M (Unit {0})
watched_steps sn = do
  state ← ask (λ env trace. env.watched trace sn.name)
  log (watch_network sn.name)
  s ← of_result state
  if s == "Created" then pure tt else raise (message "Network is not created")

-- The network was accepted by the cluster, and its watch ended with the state Created.
pub record CameUp (sn : IpSubnet) (env : Env) (before : List Event) : Type 0 where
  pub accepted : env.created before sn ≡ none
  pub state : String
  pub watched : env.watched (create_network sn ∷ before) sn.name ≡ ok state
  pub is_created : (state == "Created") ≡ true

create_network_object-CameUp :
    (sn : IpSubnet) (env : Env) (w v : World)
    → create_network_object sn env w ≡ done tt v
    → CameUp sn env w.trace × (v ≡ plus (plus w (create_network sn)) (watch_network sn.name))
unfolding create_network_object ask log ◌>>=◌
create_network_object-CameUp sn env w v h =
    let w1 = plus w (create_network sn) in
    let w2 = plus w1 (watch_network sn.name) in
    let (e, h1) = check-then env w1 v tt (env.created w.trace sn) (watched_steps sn) h in
    let (s, p, h2) =
      of_result-then env w2 v tt (env.watched w1.trace sn.name)
        (λ s. if s == "Created" then pure tt else raise (message "Network is not created")) h1 in
    let (c, q) = only_created (s == "Created") env w2 v h2 in
    (record { accepted = e; state = s; watched = p; is_created = c }, q)

update_network_pool-done :
    (nps : List NetworkPool) (env : Env) (w v : World)
    → update_network_pool nps env w ≡ done tt v
    → (env.updated w.trace nps ≡ none) × (v ≡ plus w (update_pools nps))
unfolding update_network_pool ask log ◌>>=◌
update_network_pool-done nps env w v h =
    last_check (env.updated w.trace nps) env (plus w (update_pools nps)) v h

-- What an allocation for a namespace has done behind the given calls: the pools were read, the network
-- that the search chose was accepted and came up, and the pools that the search gave were stored. These
-- are all of its calls.
pub record Allocated (ns : String) (env : Env) (seen trace : List Event) : Type 0 where
  pub nps : List NetworkPool
  pub nps' : List NetworkPool
  pub conf : IpSubnet
  pub read : env.pools seen ≡ ok nps
  pub chosen : choose_pool ns nps ≡ ok (nps', conf)
  pub came_up : CameUp conf env (get_pools ∷ seen)
  pub stored :
      env.updated (watch_network conf.name ∷ create_network conf ∷ get_pools ∷ seen) nps' ≡ none
  pub history :
      trace ≡ update_pools nps' ∷ watch_network conf.name ∷ create_network conf ∷ get_pools ∷ seen

use_choice-done :
    (nps : List NetworkPool) (conf : IpSubnet) (env : Env) (w v : World)
    → use_choice (nps, conf) env w ≡ done tt v
    → let w2 = plus (plus w (create_network conf)) (watch_network conf.name) in
      CameUp conf env w.trace × (env.updated w2.trace nps ≡ none) × (v ≡ plus w2 (update_pools nps))
unfolding use_choice
use_choice-done nps conf env w v h =
    let (_, u, p, q) = >>=-eq-done (create_network_object conf) _ env w tt v h in
    let (c, e) = create_network_object-CameUp conf env w u p in
    let (o, t) = update_network_pool-done nps env u v q in
    (
      c,
      ap (λ (x : World). env.updated x.trace nps) (sym e) ∙ o,
      t ∙ ap (λ x. plus x (update_pools nps)) e,
    )

-- The steps behind the reading of the pools.
abbrev chosen_steps : String → List NetworkPool → M (Unit {0})
chosen_steps ns nps = of_result (choose_pool ns nps) >>= use_choice

allocate-Allocated :
    (ns : String) (env : Env) (w v : World)
    → allocate ns env w ≡ done tt v
    → Allocated ns env w.trace v.trace
unfolding allocate ask log ◌>>=◌
allocate-Allocated ns env w v h =
    let w1 = plus w get_pools in
    let (nps, read, h1) = of_result-then env w1 v tt (env.pools w.trace) (chosen_steps ns) h in
    let ((nps', conf), chosen, h2) =
      of_result-then env w1 v tt (choose_pool ns nps) use_choice h1 in
    let (c, o, t) = use_choice-done nps' conf env w1 v h2 in
    record {
      nps = nps;
      nps' = nps';
      conf = conf;
      read = read;
      chosen = chosen;
      came_up = c;
      stored = o;
      history = ap (λ (x : World). x.trace) t;
    }

-- A run of CreateNetworkFromPool that returns without an error has allocated: it has read the pools, the
-- network that the search chose for the namespace was accepted by the cluster and came up in the state
-- Created, and the pools that the search gave were stored. These calls, in this order, are all that it
-- made.
pub create_network_from_pool-Allocated :
    (ns : String) (env : Env) (w v : World)
    → create_network_from_pool ns env w ≡ done tt v
    → Allocated ns env w.trace v.trace
unfolding create_network_from_pool raise ask ◌>>=◌
create_network_from_pool-Allocated ns env w v h =
    let (exists, p, h1) =
      of_result-then env w v tt (env.conf_exists w.trace)
        (λ b. if b then allocate ns else raise no_config) h in
    at exists h1
  where
    at :
        (b : Bool)
        → (if b then allocate ns else raise no_config) env w ≡ done tt v
        → Allocated ns env w.trace v.trace
    at true h = allocate-Allocated ns env w v h
    at false h = cc
