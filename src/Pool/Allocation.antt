-- ===== src/Pool/Allocation.antt =====
-- Which network pool CreateNetworkFromPool of internal/pkg/network/pool.go gives away.
use icn_nodus.Common.{
  All, String, ◌≡◌, refl, ap, ◌⊎◌, inl, inr, Bool, true, false, not, ◌&&◌, List, [], ◌∷◌, ◌++◌,
  ◌==◌,
}
use icn_nodus.Api.{IpSubnet, NetworkPool}
use icn_nodus.Effect.{Result, ok, err}
use icn_nodus.Pool.{no_network, is_taken, is_free, prepend, choose_pool}

abbrev pub IsFree : NetworkPool → Type 0
IsFree np = is_free np ≡ true

abbrev pub NotFree : NetworkPool → Type 0
NotFree np = is_free np ≡ false

-- A pool that was given to a namespace: unavailable, with the namespace as its network's name.
abbrev pub given_away : String → NetworkPool → NetworkPool
given_away ns np = record {
  pool_nr = np.pool_nr;
  network = record {
    name = ns;
    subnet = np.network.subnet;
    gateway = np.network.gateway;
    exclude_ips = np.network.exclude_ips;
  };
  available = false;
}

-- The first free pool of the list is taken by the namespace and nothing else changes.
pub record TakesFirst (ns : String) (nps nps' : List NetworkPool) (n : IpSubnet) : Type 0 where
  pub before : List NetworkPool
  pub chosen : NetworkPool
  pub after : List NetworkPool
  pub were : nps ≡ before ++ chosen ∷ after
  pub none_before : All NotFree before
  pub free : IsFree chosen
  pub are : nps' ≡ before ++ given_away ns chosen ∷ after
  pub given : n ≡ (given_away ns chosen).network

-- The last pool of the list is given away.
abbrev pub ends_taken : List NetworkPool → Bool
ends_taken [] = false
ends_taken (np ∷ []) = is_taken np
ends_taken (np ∷ m ∷ nps) = ends_taken (m ∷ nps)

-- What the search finds: the first free pool, or a blank network where none is free and the last
-- pool is not given away, or an error where none is free and it is.
abbrev pub Found : String → List NetworkPool → Result (List NetworkPool × IpSubnet) → Type 0
Found ns nps (ok (nps', n)) =
    TakesFirst ns nps nps' n
    ⊎ All NotFree nps × (ends_taken nps ≡ false) × (nps' ≡ nps) × (n ≡ no_network)
Found ns nps (err e) = All NotFree nps × (ends_taken nps ≡ true)

taken-NotFree : (np : NetworkPool) → is_taken np ≡ true → NotFree np
taken-NotFree np h = by (np.network.name == "nil") np.available h
  where
    by : (a b : Bool) → (not a && not b) ≡ true → (a && b) ≡ false
    by true b h = cc
    by false b h = refl

module _ (ns : String) (np : NetworkPool) (free : NotFree np) where
  TakesFirst-cons :
      {nps nps' : List NetworkPool} {n : IpSubnet}
      → TakesFirst ns nps nps' n
      → TakesFirst ns (np ∷ nps) (np ∷ nps') n
  TakesFirst-cons t = record {
    before = np ∷ t.before;
    chosen = t.chosen;
    after = t.after;
    were = ap (λ l. np ∷ l) t.were;
    none_before = (free, t.none_before);
    free = t.free;
    are = ap (λ l. np ∷ l) t.are;
    given = t.given;
  }

  prepend-Found :
      (m : NetworkPool) (nps : List NetworkPool) (r : Result (List NetworkPool × IpSubnet))
      → Found ns (m ∷ nps) r
      → Found ns (np ∷ m ∷ nps) (prepend np r)
  prepend-Found m nps (ok (nps', n)) (inl t) = inl (TakesFirst-cons t)
  prepend-Found m nps (ok (nps', n)) (inr (a, b, e, z)) = inr ((free, a), b, ap (λ l. np ∷ l) e, z)
  prepend-Found m nps (err e) (a, b) = ((free, a), b)

  -- The search at a pool that is not free.
  pass_by :
      (taken : Bool) (nps : List NetworkPool)
      → is_taken np ≡ taken
      → Found ns nps (choose_pool ns nps)
      → Found ns (np ∷ nps) (choose_pool ns (np ∷ nps))
  unfolding choose_pool
  pass_by true [] e h = rw (e) ((free, tt), e)
  pass_by false [] e h = rw (e, free) (inr ((free, tt), e, refl, refl))
  pass_by true (m ∷ nps) e h = rw (e) (prepend-Found m nps (choose_pool ns (m ∷ nps)) h)
  pass_by false (m ∷ nps) e h = rw (e, free) (prepend-Found m nps (choose_pool ns (m ∷ nps)) h)

module _ (ns : String) (np : NetworkPool) (nps : List NetworkPool) (free : IsFree np) where
  stop_at : (taken : Bool) → is_taken np ≡ taken → Found ns (np ∷ nps) (choose_pool ns (np ∷ nps))
  unfolding choose_pool
  stop_at true e = absurd (free_not (taken-NotFree np e))
    where
      free_not : NotFree np → ⊥
      free_not h = cc
  stop_at false e =
      rw (e, free)
        (inl (record {
          before = [];
          chosen = np;
          after = nps;
          were = refl;
          none_before = tt;
          free = free;
          are = refl;
          given = refl;
        }))

choose_pool-empty : (ns : String) → Found ns [] (choose_pool ns [])
unfolding choose_pool
choose_pool-empty ns = inr (tt, refl, refl, refl)

-- The search of CreateNetworkFromPool takes the first free pool, marks it as unavailable with the
-- namespace as its network's name, keeps every other pool and returns its network; if no pool is
-- free it reports an error exactly where the last pool is given away, and else returns a blank
-- network and the pools as they were.
pub choose_pool-Found : (ns : String) (nps : List NetworkPool) → Found ns nps (choose_pool ns nps)
choose_pool-Found ns [] = choose_pool-empty ns
choose_pool-Found ns (np ∷ nps) = at_pool (is_free np) refl (choose_pool-Found ns nps)
  where
    at_pool :
        (b : Bool)
        → is_free np ≡ b
        → Found ns nps (choose_pool ns nps)
        → Found ns (np ∷ nps) (choose_pool ns (np ∷ nps))
    at_pool true e h = stop_at ns np nps e (is_taken np) refl
    at_pool false e h = pass_by ns np e (is_taken np) nps refl h
