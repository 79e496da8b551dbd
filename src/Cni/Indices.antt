-- ===== src/Cni/Indices.antt =====
-- internal/pkg/cniserver/cni.go: the interfaces that the addresses of a result refer to.
use icn_nodus.Common.{
  length, length-append, All, All-append, ℕ, ◌+◌, ◌<◌, Option, none, some, List, [], ◌∷◌, arith,
}
use icn_nodus.Cni.{IpConfig, CniResult, shifted, merge_with_result}

-- Each address refers to an interface that the result has.
abbrev pub RefersWithin : ℕ → IpConfig → Type 0
RefersWithin n ip = ip.interface < n

abbrev pub IsClosed : CniResult → Type 0
IsClosed r = All (RefersWithin (length r.interfaces)) r.ips

abbrev pub IsClosedIfAny : Option CniResult → Type 0
IsClosedIfAny none = Unit {0}
IsClosedIfAny (some r) = IsClosed r

within_more :
    (n m : ℕ) (ips : List IpConfig) → All (RefersWithin n) ips → All (RefersWithin (n + m)) ips
within_more n m [] a = tt
within_more n m (ip ∷ ips) (p, a) = (omega arith, within_more n m ips a)

within_shifted :
    (n m : ℕ) (ips : List IpConfig)
    → All (RefersWithin m) ips
    → All (RefersWithin (n + m)) (shifted n ips)
within_shifted n m [] a = tt
within_shifted n m (ip ∷ ips) (p, a) = (omega arith, within_shifted n m ips a)

pub merge_with_result-IsClosed :
    (src : CniResult) (dst : Option CniResult)
    → IsClosed src
    → IsClosedIfAny dst
    → IsClosed (merge_with_result src dst)
unfolding merge_with_result
merge_with_result-IsClosed src none s d = s
merge_with_result-IsClosed src (some dst) s d =
    let n = length dst.interfaces in
    let m = length src.interfaces in
    rw (length-append dst.interfaces src.interfaces) (
      All-append (RefersWithin (n + m)) dst.ips (shifted n src.ips) (within_more n m dst.ips d)
        (within_shifted n m src.ips s))
