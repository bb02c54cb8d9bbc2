-- ===== src/Common/Bits.antt =====
-- The bit operations at variables: the equation for the lowest digit, `&` with a low mask, `|` of
-- disjoint fields, and the exclusive or.
use Prim.Native.Nat.{
  ℕ, zero, suc, ◌+◌, ◌*◌, ◌/◌, ◌%◌, ◌^◌, ◌≤◌, ◌<◌, min, max, digits, bitwise, differ,
}
use Prim.Native.Nat.{bit_or, bit_xor, bit_and, bit_or-bitwise, bit_xor-bitwise, bit_and-bitwise}
use mathlib.Core.Path.{◌≡◌, refl, ap, ◌∙◌}
use native.Mathlib.Decide.{dec_lt}
use mathlib.Core.Bool.{Bool, true, false}
use ott_quic.Common.Tests.{◌==◌, if◌then◌else◌}
use native.Mathlib.Nat.{le_refl, pow-suc}
use native.Mathlib.Omega.{arith}

-- `digits` counts its rounds down; past the first number they change nothing.
module _ (tail : ℕ → ℕ) (op : ℕ → ℕ → ℕ) where
  one_more : (n a b : ℕ) → a ≤ n → digits tail op (suc n) a b ≡ digits tail op n a b
  one_more zero zero b h = refl
  one_more (suc n) zero b h = refl
  one_more zero (suc a) b h = elim h [ ]
  one_more (suc n) (suc a) b h =
      ap (λ (t : ℕ). t * 2 + op (suc a % 2) (b % 2)) (one_more n (suc a / 2) (b / 2) (omega arith))

  all_rounds : (n a b : ℕ) → a ≤ n → digits tail op n a b ≡ bitwise tail op a b
  all_rounds zero zero b h = refl
  all_rounds zero (suc a) b h = elim h [ ]
  all_rounds (suc n) a b h = elim (dec_lt n a) [
    | yes last ↦ ap (λ (k : ℕ). digits tail op k a b) {x = suc n} (omega arith)
    | no early ↦ one_more n a b (omega arith) ∙ all_rounds n a b (omega arith)
  ]

  low_digit :
      (a b : ℕ)
      → bitwise tail op (suc a) b ≡ bitwise tail op (suc a / 2) (b / 2) * 2 + op (suc a % 2) (b % 2)
  low_digit a b =
      ap (λ (t : ℕ). t * 2 + op (suc a % 2) (b % 2))
        (all_rounds a (suc a / 2) (b / 2) (omega arith))

bit_xor-halves : (a b : ℕ) → bit_xor a b ≡ bit_xor (a / 2) (b / 2) * 2 + differ (a % 2) (b % 2)
bit_xor-halves zero b = simp bit_xor-bitwise (omega arith)
bit_xor-halves (suc a) b = simp bit_xor-bitwise (low_digit _ differ a b)

bit_or-halves : (a b : ℕ) → bit_or a b ≡ bit_or (a / 2) (b / 2) * 2 + max (a % 2) (b % 2)
bit_or-halves zero b = simp bit_or-bitwise (omega arith)
bit_or-halves (suc a) b = simp bit_or-bitwise (low_digit _ max a b)

-- Two functions compared on a table: all numbers below its end.
module _ (f g : ℕ → ℕ) where
  unfoldable pub same_table : ℕ → Bool
  same_table zero = true
  same_table (suc end) = if f end == g end then same_table end else false

  pub on_table : (end : ℕ) → same_table end ≡ true → (i : ℕ) → i < end → f i ≡ g i
  unfolding same_table
  on_table zero h i lt = elim lt [ ]
  on_table (suc end) h i lt = ground (arith, on_table end (ground arith) i)

-- The fields of the two bytes of a frame header.
pub low_four : (b : ℕ) → b < 256 → bit_and b 0x0F ≡ b % 16
unfolding same_table
low_four = on_table _ _ 256 refl

pub low_seven : (b : ℕ) → b < 256 → bit_and b 0x7F ≡ b % 128
unfolding same_table
low_seven = on_table _ _ 256 refl

pub top_bit : (b : ℕ) → b < 256 → bit_and b 0x80 ≡ b / 128 * 128
unfolding same_table
top_bit = on_table _ _ 256 refl

pub set_top_bit : (b : ℕ) → b < 128 → bit_or 0x80 b ≡ 128 + b
unfolding same_table
set_top_bit = on_table _ _ 128 refl

or_zero_within : (n a : ℕ) → a ≤ n → bit_or a 0 ≡ a
or_zero_within n zero h = refl
or_zero_within zero (suc a) h = absurd (omega arith)
or_zero_within (suc n) (suc a) h =
    omega (arith, bit_or-halves (suc a) 0, or_zero_within n (suc a / 2) (omega arith))

-- A field of `k` low bits joins a number shifted by `k` as a sum.
pub bit_or_low : (k q r : ℕ) → r < 2 ^ k → bit_or (q * 2 ^ k) r ≡ q * 2 ^ k + r
bit_or_low zero q r h = ground (arith, or_zero_within q q (le_refl _))
bit_or_low (suc k) q r h = ground (
  arith,
  bit_or-halves (q * 2 ^ suc k) r,
  pow-suc 2 k,
  ap (λ (t : ℕ). q * t) (pow-suc 2 k),
  bit_or_low k q (r / 2),
)

differ_twice : (x y : ℕ) → x < 2 → y < 2 → differ (differ x y) y ≡ x
differ_twice zero zero p q = refl
differ_twice zero (suc zero) p q = refl
differ_twice (suc zero) zero p q = refl
differ_twice (suc zero) (suc zero) p q = refl
differ_twice (suc (suc x)) y p q = absurd (omega arith)
differ_twice x (suc (suc y)) p q = absurd (omega arith)

differ-lt : (x y : ℕ) → x < 2 → y < 2 → differ x y < 2
differ-lt zero y p q = q
differ-lt (suc x) zero p q = p
differ-lt (suc x) (suc y) p q = differ-lt x y (omega arith) (omega arith)

xor_twice_within : (n a b : ℕ) → a ≤ n → b ≤ n → bit_xor (bit_xor a b) b ≡ a
xor_twice_within zero zero zero p q = refl
xor_twice_within zero (suc a) b p q = absurd (omega arith)
xor_twice_within zero a (suc b) p q = absurd (omega arith)
xor_twice_within (suc n) a b p q =
    rw
      (
        bit_xor-halves (bit_xor a b) b,
        upper,
        lower,
        differ_twice (a % 2) (b % 2) (omega arith) (omega arith),
      )
      (rw (xor_twice_within n (a / 2) (b / 2) (omega arith) (omega arith)) (omega arith))
  where
    lt_two : differ (a % 2) (b % 2) < 2
    lt_two = differ-lt (a % 2) (b % 2) (omega arith) (omega arith)

    upper : bit_xor a b / 2 ≡ bit_xor (a / 2) (b / 2)
    upper = omega (arith, lt_two, bit_xor-halves a b)

    lower : bit_xor a b % 2 ≡ differ (a % 2) (b % 2)
    lower = omega (arith, lt_two, bit_xor-halves a b)

-- The same mask twice gives the number back.
pub bit_xor_twice : (a b : ℕ) → bit_xor (bit_xor a b) b ≡ a
bit_xor_twice a b = xor_twice_within (a + b) a b (omega arith) (omega arith)

-- The same with the field on the left.
pub low_bit_or : (k q r : ℕ) → r < 2 ^ k → bit_or r (q * 2 ^ k) ≡ q * 2 ^ k + r
low_bit_or zero q zero h = simp bit_or-bitwise (omega arith)
low_bit_or zero q (suc r) h = absurd (omega arith)
low_bit_or (suc k) q r h = ground (
  arith,
  bit_or-halves r (q * 2 ^ suc k),
  pow-suc 2 k,
  ap (λ (t : ℕ). q * t) (pow-suc 2 k),
  low_bit_or k q (r / 2),
)

bit_and-halves : (a b : ℕ) → bit_and a b ≡ bit_and (a / 2) (b / 2) * 2 + min (a % 2) (b % 2)
bit_and-halves zero b = simp bit_and-bitwise (omega arith)
bit_and-halves (suc a) b = simp bit_and-bitwise (low_digit _ min a b)

-- The mask of `k` low bits, and what it leaves of a number.
abbrev low_mask : ℕ → ℕ
low_mask zero = 0
low_mask (suc k) = low_mask k * 2 + 1

abbrev low_part : ℕ → ℕ → ℕ
low_part zero a = 0
low_part (suc k) a = low_part k (a / 2) * 2 + a % 2

and_zero_within : (n a : ℕ) → a ≤ n → bit_and a 0 ≡ 0
and_zero_within n zero h = refl
and_zero_within zero (suc a) h = absurd (omega arith)
and_zero_within (suc n) (suc a) h =
    omega (arith, bit_and-halves (suc a) 0, and_zero_within n (suc a / 2) (omega arith))

bit_and-low_mask : (k a : ℕ) → bit_and a (low_mask k) ≡ low_part k a
bit_and-low_mask zero a = and_zero_within a a (le_refl _)
bit_and-low_mask (suc k) a =
    bit_and-halves a (low_mask k * 2 + 1)
    ∙ rw (halved (low_mask k), odd (low_mask k)) (rw (bit_and-low_mask k (a / 2)) (omega arith))
  where
    halved : (m : ℕ) → (m * 2 + 1) / 2 ≡ m
    halved m = omega arith

    odd : (m : ℕ) → (m * 2 + 1) % 2 ≡ 1
    odd m = omega arith

pub low_byte : (a : ℕ) → bit_and a 0xFF ≡ a % 256
low_byte a = bit_and-low_mask 8 a ∙ omega arith
