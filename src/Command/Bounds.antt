-- ===== src/Command/Bounds.antt =====
-- The buffers that the fields of a command are written into, and hexadecimal texts.
use Prim.Native.Nat.{bit_and}
use ott_quic.Common.{
  ℕ, ◌+◌, ◌-◌, ◌*◌, ◌/◌, ◌%◌, ◌^◌, ◌≤◌, ◌<◌, ◌≡◌, refl, ap, true, false, none, some, List, [], ◌∷◌,
  ltb, leb, ◌==◌, if◌then◌else◌, length, length-take, take, All, IsByte, Bool-cases, Option-cases,
  inl, inr, arith,
}
use ott_quic.Common.Bits.{on_table, same_table}
use ott_quic.Text.{Text, before, after}
use ott_quic.Session.{hex, hex_digit}
use ott_quic.Session.Bounds.{Fits}
use ott_quic.Command.{find_value, quoted, string_field, hex_value, hex_pair, hex_loop, hex_to_bytes}

cut-Fits :
    (out_size : ℕ) (text : Text)
    → (out_size == 0) ≡ false
    → Fits out_size (some (if leb out_size (length text) then take (out_size - 1) text else text))
cut-Fits out_size text z = elim (Bool-cases (leb out_size (length text))) [
  | inl e ↦ rw e (ground (arith, length-take (out_size - 1) text))
  | inr e ↦ rw e (ground arith)
]

quoted-Fits :
    (value : Text) (out_size : ℕ) → (out_size == 0) ≡ false → Fits out_size (quoted value out_size)
unfolding quoted
quoted-Fits [] out_size z = tt
quoted-Fits (c ∷ value) out_size z = elim (Bool-cases (c == 34)) [
  | inr q ↦ rw q tt
  | inl q ↦ elim (Option-cases (after 34 value)) [
    | inl n ↦ rw q (rw n tt)
    | inr (rest, n) ↦ rw q (rw n (cut-Fits out_size (before 34 value) z))
  ]
]

-- Whatever the text of a command holds, a string field that is extracted fits into its buffer with
-- its closing NUL.
pub string_field-Fits :
    (json key : Text) (out_size : ℕ) → Fits out_size (string_field json key out_size)
unfolding string_field
string_field-Fits json key out_size = elim (Bool-cases (out_size == 0)) [
  | inl z ↦ rw (z, string_field) tt
  | inr z ↦ elim (Option-cases (find_value json key)) [
    | inl n ↦ rw (z, string_field) (rw n tt)
    | inr (value, n) ↦ rw (z, string_field) (rw n (quoted-Fits value out_size z))
  ]
]

pair_code : ℕ → ℕ
pair_code b = elim (hex_pair (hex_digit (bit_and (b / 2 ^ 4) 0xF)) (hex_digit (bit_and b 0xF))) [
  | none ↦ 0
  | some n ↦ n + 1
]

pair_table : (b : ℕ) → b < 256 → pair_code b ≡ b + 1
unfolding pair_code hex_pair hex_digit hex_value same_table
pair_table = on_table pair_code (λ b. b + 1) 256 refl

hex_pair-hex_digit :
    (b : ℕ)
    → b < 256
    → hex_pair (hex_digit (bit_and (b / 2 ^ 4) 0xF)) (hex_digit (bit_and b 0xF)) ≡ some b
unfolding pair_code
hex_pair-hex_digit b h = ground (arith, pair_table b h)

hex_loop-cons :
    (a b x : ℕ) (text : Text) (xs : List ℕ)
    → hex_pair a b ≡ some x
    → hex_loop text ≡ some xs
    → hex_loop (a ∷ b ∷ text) ≡ some (x ∷ xs)
unfolding hex_loop
hex_loop-cons a b x text xs e later = rw (e, hex_loop) (rw later refl)

hex-nil : hex [] ≡ []
unfolding hex
hex-nil = refl

hex_loop-hex : (bytes : List ℕ) → All IsByte bytes → hex_loop (hex bytes) ≡ some bytes
unfolding hex_loop hex
hex_loop-hex [] h = refl
hex_loop-hex (b ∷ bytes) (lt, h) =
    hex_loop-cons (hex_digit (bit_and (b / 2 ^ 4) 0xF)) (hex_digit (bit_and b 0xF)) b (hex bytes)
      bytes (hex_pair-hex_digit b lt) (hex_loop-hex bytes h)

length-hex : (bytes : List ℕ) → length (hex bytes) ≡ length bytes * 2
unfolding hex
length-hex [] = refl
length-hex (b ∷ bytes) = omega (arith, length-hex bytes)

-- `hex_to_bytes` reads back the bytes that are written as pairs of lower-case hexadecimal digits, as
-- `session_generate_id` writes them, if they are bytes and fit into the buffer.
pub hex_to_bytes-hex :
    (bytes : List ℕ) (max_len : ℕ)
    → All IsByte bytes
    → length bytes ≤ max_len
    → hex_to_bytes (hex bytes) max_len ≡ some bytes
unfolding hex_to_bytes
hex_to_bytes-hex [] max_len h fits = ap (λ (t : Text). hex_to_bytes t max_len) hex-nil
hex_to_bytes-hex (b ∷ bytes) max_len h fits =
    let len = length-hex (b ∷ bytes) in
    let some_text : (length (hex (b ∷ bytes)) == 0) ≡ false = ground (arith, len) in
    let even : (length (hex (b ∷ bytes)) % 2 == 0) ≡ true = ground (arith, len) in
    let room : ltb max_len (length (hex (b ∷ bytes)) / 2) ≡ false = ground (arith, len) in
    rw (some_text, hex_to_bytes) (rw even (rw room (hex_loop-hex (b ∷ bytes) h)))
