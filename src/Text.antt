-- ===== src/Text.antt =====
-- What the source uses of the standard library on texts without their closing NUL: <string.h>,
-- <ctype.h>, strtol, and snprintf.
pub mod Rows
use Prim.Native.Char.{code}
use Prim.Native.String.{String}
use ott_quic.Common.{
  ℕ, zero, suc, ◌+◌, ◌-◌, ◌*◌, ◌/◌, ◌%◌, ◌^◌, Bool, true, false, ◌&&◌, ◌||◌, Option, none, some,
  List, [], ◌∷◌, ◌++◌, ◌==◌, ltb, leb, if◌then◌else◌, length, take, u32,
}

abbrev pub Text : Type 0
Text = List ℕ

-- The bytes of a literal.
abbrev pub codes : String → Text
codes String.[] = []
codes (String.◌∷◌ c s) = code c ∷ codes s

-- `tolower` in the C locale.
abbrev pub lower : ℕ → ℕ
lower c = if leb b'A' c && leb c b'Z' then c + 32 else c

-- `strcasecmp(a, b) == 0`.
unfoldable pub same_text : Text → Text → Bool
same_text [] [] = true
same_text (a ∷ s) (b ∷ t) = (lower a == lower b) && same_text s t
same_text _ _ = false

-- `strncasecmp(text, prefix, strlen(prefix)) == 0`.
unfoldable pub has_prefix : Text → Text → Bool
has_prefix [] text = true
has_prefix (p ∷ ps) [] = false
has_prefix (p ∷ ps) (c ∷ text) = (lower p == lower c) && has_prefix ps text

-- The text up to the first `c`, or all of it.
unfoldable pub before : ℕ → Text → Text
before c [] = []
before c (x ∷ text) = let later = before c text in if x == c then [] else x ∷ later

-- The text after the first `c`, where `strchr` finds one.
unfoldable pub after : ℕ → Text → Option Text
after c [] = none
after c (x ∷ text) = let later = after c text in if x == c then some text else later

-- The text after a prefix, if it has the prefix.
unfoldable pub without : Text → Text → Option Text
without [] text = some text
without (p ∷ ps) [] = none
without (p ∷ ps) (c ∷ text) = let later = without ps text in if p == c then later else none

-- The text after what `strstr` finds.
unfoldable pub after_text : Text → Text → Option Text
unfolding without
after_text pattern [] = without pattern []
after_text pattern (c ∷ text) =
    let later = after_text pattern text in
    elim (without pattern (c ∷ text)) [ none ↦ later | some rest ↦ some rest ]

-- `isspace` in the C locale.
abbrev pub is_space : ℕ → Bool
is_space c = (c == 32) || (leb 9 c && leb c 13)

abbrev pub is_digit : ℕ → Bool
is_digit c = leb b'0' c && leb c b'9'

-- The decimal number at the front of a text, after the digits before it.
unfoldable pub digits_from : ℕ → Text → ℕ
digits_from n [] = n
digits_from n (c ∷ text) =
    let later = digits_from (n * 10 + (c - b'0')) text in if is_digit c then later else n

-- The number at the front of a text, `none` without a digit.
unfoldable pub decimal : Text → Option ℕ
unfolding digits_from
decimal [] = none
decimal (c ∷ text) = if is_digit c then some (digits_from 0 (c ∷ text)) else none

-- What `strtoull` and `strtol` read: whether there is a minus sign, and the number.
unfoldable pub signed_decimal : Text → Option (Bool × ℕ)
unfolding decimal
signed_decimal [] = none
signed_decimal (c ∷ text) =
    let minus = c == b'-' in
    elim (decimal (if minus || (c == b'+') then text else c ∷ text)) [
      | none ↦ none
      | some n ↦ some (minus, n)
    ]

-- The result of `strtoull`: it stops at 2^64 - 1, and a minus sign negates modulo 2^64.
abbrev pub as_uint64 : Bool × ℕ → ℕ
as_uint64 (minus, n) =
    if leb (2 ^ 64) n then 2 ^ 64 - 1 else if minus then (2 ^ 64 - n) % 2 ^ 64 else n

-- The 32 bits of the result of `strtol`, which stops at the bounds of a 64-bit `long`.
abbrev pub as_int : Bool × ℕ → ℕ
as_int (minus, n) =
    if minus
    then u32 (2 ^ 64 - (if ltb (2 ^ 63) n then 2 ^ 63 else n))
    else u32 (if leb (2 ^ 63) n then 2 ^ 63 - 1 else n)

-- `strcmp(a, b) == 0`.
unfoldable pub same_exact : Text → Text → Bool
same_exact [] [] = true
same_exact (a ∷ s) (b ∷ t) = (a == b) && same_exact s t
same_exact _ _ = false

-- What `strncpy` and `snprintf` keep in a buffer of so many bytes.
abbrev pub cut : ℕ → Text → Text
cut size text = take (size - 1) text

-- The test after a call of `snprintf` that all was written.
abbrev pub fits : ℕ → Text → Bool
fits size text = ltb (length text) size

-- The decimal digits of a number in front of a text, of at most so many digits.
unfoldable pub digits_before : ℕ → ℕ → Text → Text
digits_before zero n text = text
digits_before (suc rounds) n text =
    let shown = (b'0' + n % 10) ∷ text in
    let later = digits_before rounds (n / 10) shown in if ltb n 10 then shown else later

-- `%u`, `%zu`, `%llu`: twenty digits are enough for 64 bits.
unfoldable pub print_nat : ℕ → Text
unfolding digits_before
print_nat n = digits_before 20 n []

-- `%d` of the 32 bits of an `int`.
unfoldable pub print_int : ℕ → Text
unfolding print_nat
print_int n = if ltb n (2 ^ 31) then print_nat n else b'-' ∷ print_nat (2 ^ 32 - n)

-- The bits of an `int` that is greater than 0.
abbrev pub is_positive : ℕ → Bool
is_positive n = ltb 0 n && ltb n (2 ^ 31)
