-- ===== src/Ovn/Switch/NextIp.antt =====
-- NextIP, ipToInt and intToIP of internal/pkg/ovn/common.go.
use icn_nodus.Common.{
  nat_eq, if◌then◌else◌, nat_eq_iff, Bool-cases, length, length-append, All, All-append, ℕ, zero,
  suc, ◌+◌, ◌*◌, ◌/◌, ◌%◌, ◌≤◌, ◌<◌, ◌≡◌, refl, ap, ◌∙◌, ◌≢◌, inl, inr, Bool, true, false, List, [],
  ◌∷◌, ◌++◌, arith,
}
use icn_nodus.Ovn.Switch.{
  set_bytes, is_mapped, to4, to16, ip_to_int, bytes_rounds, int_to_ip, next_ip,
}

set_bytes-append :
    (acc : ℕ) (bs : List ℕ) (b : ℕ) → set_bytes acc (bs ++ b ∷ []) ≡ set_bytes acc bs * 256 + b
set_bytes-append acc [] b = refl
set_bytes-append acc (c ∷ bs) b = set_bytes-append (acc * 256 + c) bs b

round_value :
    (b : Bool) (n : ℕ) (higher : List ℕ)
    → nat_eq n 0 ≡ b
    → (n ≢ 0 → set_bytes 0 higher ≡ n / 256)
    → set_bytes 0 (if b then [] else higher ++ (n % 256) ∷ []) ≡ n
round_value true n higher e h = ground arith
round_value false n higher e h =
    let z : n ≢ 0 = ground arith in rw (set_bytes-append 0 higher (n % 256), h z) (omega arith)

set_bytes-bytes_rounds : (fuel n : ℕ) → n < fuel → set_bytes 0 (bytes_rounds fuel n) ≡ n
unfolding bytes_rounds
set_bytes-bytes_rounds zero n h = absurd (omega arith)
set_bytes-bytes_rounds (suc fuel) n h =
    round_value (nat_eq n 0) n (bytes_rounds fuel (n / 256)) refl
      (λ z. set_bytes-bytes_rounds fuel (n / 256) (omega arith))

abbrev pub IsByte : ℕ → Type 0
IsByte n = n < 256

round_bytes :
    (b : Bool) (n : ℕ) (higher : List ℕ)
    → All IsByte higher
    → All IsByte (if b then [] else higher ++ (n % 256) ∷ [])
round_bytes true n higher h = tt
round_bytes false n higher h = All-append IsByte higher _ h (omega arith, tt)

bytes_rounds-bytes : (fuel n : ℕ) → All IsByte (bytes_rounds fuel n)
unfolding bytes_rounds
bytes_rounds-bytes zero n = tt
bytes_rounds-bytes (suc fuel) n = round_bytes (nat_eq n 0) n _ (bytes_rounds-bytes fuel (n / 256))

abbrev pub pow256 : ℕ → ℕ
pow256 zero = 1
pow256 (suc k) = 256 * pow256 k

mul_mono : (m n p : ℕ) → m ≤ n → m * p ≤ n * p
mul_mono m n zero h = omega arith
mul_mono m n (suc p) h = omega (arith, mul_mono m n p h)

mul_assoc_256 : (a p : ℕ) → a * (256 * p) ≡ (a * 256) * p
mul_assoc_256 a p = grind arith

set_bytes-upper :
    (acc : ℕ) (bs : List ℕ) → All IsByte bs → set_bytes acc bs < (acc + 1) * pow256 (length bs)
set_bytes-upper acc [] h = omega arith
set_bytes-upper acc (b ∷ bs) (p, h) =
    let q = pow256 (length bs) in
    let m = mul_mono (acc * 256 + b + 1) ((acc + 1) * 256) q (omega arith) in
    omega (arith, set_bytes-upper (acc * 256 + b) bs h, m, mul_assoc_256 (acc + 1) q)

set_bytes-lower : (acc : ℕ) (bs : List ℕ) → acc * pow256 (length bs) ≤ set_bytes acc bs
set_bytes-lower acc [] = omega arith
set_bytes-lower acc (b ∷ bs) =
    let q = pow256 (length bs) in
    let m = mul_mono (acc * 256) (acc * 256 + b) q (omega arith) in
    omega (arith, set_bytes-lower (acc * 256 + b) bs, m, mul_assoc_256 acc q)

round_length :
    (b : Bool) (n k : ℕ) (higher : List ℕ)
    → nat_eq n 0 ≡ b
    → n ≢ 0
    → length higher ≡ k
    → length (if b then [] else higher ++ (n % 256) ∷ []) ≡ suc k
round_length true n k higher e z h = ground arith
round_length false n k higher e z h = length-append higher ((n % 256) ∷ []) ∙ omega (arith, h)

bytes_rounds-zero : (fuel : ℕ) → bytes_rounds fuel 0 ≡ []
unfolding bytes_rounds
bytes_rounds-zero zero = refl
bytes_rounds-zero (suc fuel) = refl

pow256_pos : (k : ℕ) → 1 ≤ pow256 k
pow256_pos zero = omega arith
pow256_pos (suc k) = omega (arith, pow256_pos k)

length-bytes_rounds :
    (k fuel n : ℕ)
    → n < fuel
    → pow256 k ≤ n
    → n < pow256 (suc k)
    → length (bytes_rounds fuel n) ≡ suc k
unfolding bytes_rounds
length-bytes_rounds k zero n f lo hi = absurd (omega arith)
length-bytes_rounds zero (suc fuel) n f lo hi =
    let z : n / 256 ≡ 0 = omega arith in
    round_length (nat_eq n 0) n 0 (bytes_rounds fuel (n / 256)) refl (λ e. omega arith)
      (rw z (ap length (bytes_rounds-zero fuel)))
length-bytes_rounds (suc k) (suc fuel) n f lo hi =
    let p = pow256_pos k in
    round_length (nat_eq n 0) n (suc k) (bytes_rounds fuel (n / 256)) refl (λ e. omega arith)
      (length-bytes_rounds k fuel (n / 256) (omega arith) (omega arith) (omega arith))

-- An address of k + 1 bytes that is too large for k bytes
pub record IsWhole (k : ℕ) (ip : List ℕ) : Type 0 where
  pub bytes : All IsByte ip
  pub size : length ip ≡ suc k
  pub high : pow256 k ≤ set_bytes 0 ip

not_mapped : (ip : List ℕ) → IsWhole 15 ip → is_mapped ip ≡ false
not_mapped [] w = refl
not_mapped (x ∷ bs) w = elim (Bool-cases (nat_eq x 0)) [
  | inl e ↦
      let z = (nat_eq_iff x 0).0 e in
      let size : length bs ≡ 15 = omega (arith, w.size) in
      let up : set_bytes (0 * 256 + x) bs < (0 * 256 + x + 1) * pow256 15 =
        rw size at (set_bytes-upper (0 * 256 + x) bs w.bytes.1) in
      absurd (omega (arith, up, z, w.high))
  | inr e ↦ rw e refl
]

ip_to_int-v4 : (ip : List ℕ) → length ip ≡ 4 → ip_to_int ip ≡ set_bytes 0 ip
unfolding ip_to_int to4
ip_to_int-v4 ip h = rw h refl

ip_to_int-v6 : (ip : List ℕ) → IsWhole 15 ip → ip_to_int ip ≡ set_bytes 0 ip
unfolding ip_to_int to4 to16
ip_to_int-v6 ip w = rw (w.size, not_mapped ip w) refl

next_value : (n : ℕ) → set_bytes 0 (int_to_ip n) ≡ n
unfolding int_to_ip
next_value n = set_bytes-bytes_rounds (suc n) n (omega arith)

-- The bytes of a number between two powers are such an address again.
int_to_ip-IsWhole : (k n : ℕ) → pow256 k ≤ n → n < pow256 (suc k) → IsWhole k (int_to_ip n)
unfolding int_to_ip
int_to_ip-IsWhole k n lo hi = record {
  bytes = bytes_rounds-bytes (suc n) n;
  size = length-bytes_rounds k (suc n) n (omega arith) lo hi;
  high = rw (set_bytes-bytes_rounds (suc n) n (omega arith)) lo;
}

-- The address is one of the size, and the next address is one more as a number.
abbrev pub Follows : ℕ → List ℕ → List ℕ → Type 0
Follows k ip ip' = IsWhole k ip' × (ip_to_int ip' ≡ ip_to_int ip + 1)

-- The forms of an address: 4 bytes, the same mapped into 16 bytes, and 16 bytes that are not mapped.
pub data IpForm : Type 0 where
  v4 : IpForm
  mapped_v4 : IpForm
  v6 : IpForm

-- One less than the number of bytes that count.
abbrev pub top_byte : IpForm → ℕ
top_byte v4 = 3
top_byte mapped_v4 = 3
top_byte v6 = 15

-- The address with the bytes that count.
abbrev pub written : IpForm → List ℕ → List ℕ
written v4 ip = ip
written mapped_v4 ip = 0 ∷ 0 ∷ 0 ∷ 0 ∷ 0 ∷ 0 ∷ 0 ∷ 0 ∷ 0 ∷ 0 ∷ 255 ∷ 255 ∷ ip
written v6 ip = ip

ip_to_int-mapped : (ip : List ℕ) → length ip ≡ 4 → ip_to_int (written mapped_v4 ip) ≡ set_bytes 0 ip
unfolding ip_to_int to4
ip_to_int-mapped ip h = rw h refl

ip_to_int-written :
    (form : IpForm) (ip : List ℕ)
    → IsWhole (top_byte form) ip
    → ip_to_int (written form ip) ≡ set_bytes 0 ip
ip_to_int-written v4 ip w = ip_to_int-v4 ip w.size
ip_to_int-written mapped_v4 ip w = ip_to_int-mapped ip w.size
ip_to_int-written v6 ip w = ip_to_int-v6 ip w

ip_to_int-whole :
    (form : IpForm) (ip : List ℕ) → IsWhole (top_byte form) ip → ip_to_int ip ≡ set_bytes 0 ip
ip_to_int-whole v4 ip w = ip_to_int-v4 ip w.size
ip_to_int-whole mapped_v4 ip w = ip_to_int-v4 ip w.size
ip_to_int-whole v6 ip w = ip_to_int-v6 ip w

whole :
    (k a : ℕ) (bs : List ℕ)
    → 1 ≤ a
    → All IsByte (a ∷ bs)
    → length (a ∷ bs) ≡ suc k
    → IsWhole k (a ∷ bs)
whole k a bs p b s = record {
  bytes = b;
  size = s;
  high =
      let size : length bs ≡ k = omega (arith, s) in
      let low : (0 * 256 + a) * pow256 k ≤ set_bytes (0 * 256 + a) bs =
        rw size at (set_bytes-lower (0 * 256 + a) bs) in
      omega (arith, low, mul_mono 1 (0 * 256 + a) (pow256 k) (omega arith));
}

-- For an address of 4 bytes, or of 16, whose first byte is not zero and which is not the last of its
-- size, NextIP gives an address of the same size, whose number is one more. For an IPv4 address that is
-- mapped into 16 bytes it gives the next one as 4 bytes.
pub next_ip-Follows :
    (form : IpForm) (a : ℕ) (bs : List ℕ)
    → 1 ≤ a
    → All IsByte (a ∷ bs)
    → length (a ∷ bs) ≡ suc (top_byte form)
    → set_bytes 0 (a ∷ bs) + 1 < pow256 (suc (top_byte form))
    → Follows (top_byte form) (written form (a ∷ bs)) (next_ip (written form (a ∷ bs)))
      × (ip_to_int (written form (a ∷ bs)) ≡ set_bytes 0 (a ∷ bs))
unfolding next_ip
next_ip-Follows form a bs p b s fits =
    let ip = a ∷ bs in
    let w = whole (top_byte form) a bs p b s in
    let e = ip_to_int-written form ip w in
    let n = set_bytes 0 ip + 1 in
    let low : pow256 (top_byte form) ≤ n = omega (arith, w.high) in
    let next = int_to_ip-IsWhole (top_byte form) n low fits in
    (rw e (next, ip_to_int-whole form _ next ∙ next_value n), e)
