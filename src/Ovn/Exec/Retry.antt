-- ===== src/Ovn/Exec/Retry.antt =====
-- The retry loop runOVNretry of internal/pkg/ovn/utils.go.
use icn_nodus.Common.{
  contains, ℕ, zero, suc, ◌+◌, ◌≤◌, ◌<◌, ◌≡◌, refl, ◌∙◌, ◌≢◌, ◌⊎◌, inl, inr, true, false, none,
  arith,
}
use icn_nodus.Effect.{Output}
use icn_nodus.Ovn.Exec.{run_ovn_retry}

-- An attempt that the caller does not repeat: it succeeded, or failed for another reason than a
-- refused connection.
abbrev pub IsFinal : Output → Type 0
IsFinal out = (out.error ≡ none) ⊎ (contains out.stderr "Connection refused" ≡ false)

-- An attempt that is repeated: it failed, and the connection was refused.
abbrev pub IsRefused : Output → Type 0
IsRefused out = (out.error ≢ none) × (contains out.stderr "Connection refused" ≡ true)

again :
    (reply : ℕ → Output) (left k : ℕ)
    → IsRefused (reply k)
    → run_ovn_retry reply (suc left) k ≡ run_ovn_retry reply left (k + 1)
unfolding run_ovn_retry
again reply left k h = ground arith

final : (reply : ℕ → Output) (left k : ℕ) → IsFinal (reply k) → run_ovn_retry reply left k ≡ reply k
unfolding run_ovn_retry
final reply zero k h = refl
final reply (suc left) k h = ground arith

module _ (k : ℕ) (reply : ℕ → Output) (j : ℕ)
    (refused : (i : ℕ) → i < suc j → IsRefused (reply (k + i))) where
  IsRefused-first : IsRefused (reply k)
  IsRefused-first = let e : k + 0 ≡ k = omega arith in rw e at (refused 0 (omega arith))

  IsRefused-rest : (i : ℕ) → i < j → IsRefused (reply (k + 1 + i))
  IsRefused-rest i lt =
      let e : k + suc i ≡ k + 1 + i = omega arith in rw e at (refused (suc i) (omega arith))

-- The last attempt of a run: a final one, or one with no retries left.
abbrev pub IsLast : (ℕ → Output) → ℕ → ℕ → ℕ → Type 0
IsLast reply left k j = IsFinal (reply (k + j)) ⊎ (j ≡ left)

at_once :
    (reply : ℕ → Output) (left k : ℕ)
    → IsFinal (reply k) ⊎ (0 ≡ left)
    → run_ovn_retry reply left k ≡ reply k
unfolding run_ovn_retry
at_once reply zero k h = refl
at_once reply (suc left) k (inl f) = final reply (suc left) k f
at_once reply (suc left) k (inr e) = absurd (omega arith)

-- The reply that is returned is that of the first attempt that either did not end in a refused connection
-- or used up the retries: after j ≤ `left` refused attempts, attempt j is returned as it is if it is
-- final or j is the number of retries.
pub run_ovn_retry-IsLast :
    (reply : ℕ → Output) (left k j : ℕ)
    → j ≤ left
    → ((i : ℕ) → i < j → IsRefused (reply (k + i)))
    → IsLast reply left k j
    → run_ovn_retry reply left k ≡ reply (k + j)
run_ovn_retry-IsLast reply left k zero h refused last =
    let e : k + 0 ≡ k = omega arith in rw e (at_once reply left k (rw e at last))
run_ovn_retry-IsLast reply zero k (suc j) h refused last = absurd (omega arith)
run_ovn_retry-IsLast reply (suc left) k (suc j) h refused last =
    let e : k + suc j ≡ k + 1 + j = omega arith in
    again reply left k (IsRefused-first k reply j refused)
    ∙ rw e (
        run_ovn_retry-IsLast reply left (k + 1) j (omega arith)
          (λ i lt. IsRefused-rest k reply j refused i lt)
          (elim (rw e at last) [ inl f ↦ inl f | inr n ↦ inr (omega arith) ]))
