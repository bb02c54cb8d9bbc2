-- ===== src/Packet/Words.antt =====
-- The words of a packet header, stored in network order and read back.
use Prim.Native.Nat.{bit_or}
use mathlib.Core.Path.{ap₂, subst}
use ott_quic.Common.{
  ℕ, zero, suc, ◌+◌, ◌*◌, ◌/◌, ◌%◌, ◌^◌, ◌<◌, ◌≡◌, refl, sym, ap, ◌∙◌, List, [], ◌∷◌, length, All,
  IsByte, u32, arith,
}
use ott_quic.Common.Bits.{low_bit_or}
use native.Mathlib.Nat.{pow-suc}
use ott_quic.Packet.{le_bytes, of_le_bytes, htonl, host_to_be64, be64_to_host}

pub length-le_bytes : (n v : ℕ) → length (le_bytes n v) ≡ n
unfolding le_bytes
length-le_bytes zero v = refl
length-le_bytes (suc n) v = ap suc (length-le_bytes n (v / 256))

le_bytes-IsByte : (n v : ℕ) → All IsByte (le_bytes n v)
unfolding le_bytes
le_bytes-IsByte zero v = tt
le_bytes-IsByte (suc n) v = (omega arith, le_bytes-IsByte n (v / 256))

of_le_bytes-le_bytes : (n v : ℕ) → v < 256 ^ n → of_le_bytes (le_bytes n v) ≡ v
unfolding le_bytes of_le_bytes
of_le_bytes-le_bytes zero v h = omega arith
of_le_bytes-le_bytes (suc n) v h =
    omega (arith, of_le_bytes-le_bytes n (v / 256) (omega (arith, pow-suc 256 n)))

le_bytes-of_le_bytes : (bs : List ℕ) → All IsByte bs → le_bytes (length bs) (of_le_bytes bs) ≡ bs
unfolding le_bytes of_le_bytes
le_bytes-of_le_bytes [] h = refl
le_bytes-of_le_bytes (b ∷ bs) (hb, h) =
    ap₂ ◌∷◌ (omega arith) (ap (le_bytes (length bs)) (omega arith) ∙ le_bytes-of_le_bytes bs h)

of_le_bytes-lt : (bs : List ℕ) → All IsByte bs → of_le_bytes bs < 256 ^ length bs
unfolding of_le_bytes
of_le_bytes-lt [] h = omega arith
of_le_bytes-lt (b ∷ bs) (hb, h) = omega (arith, of_le_bytes-lt bs h, pow-suc 256 (length bs))

htonl-htonl : (v : ℕ) → v < 2 ^ 32 → htonl (htonl v) ≡ v
unfolding htonl
htonl-htonl v h = omega arith

htonl-lt : (v : ℕ) → htonl v < 2 ^ 32
unfolding htonl
htonl-lt v = omega arith

-- The swap of eight bytes, as a sum of the two halves.
or_sum :
    (v : ℕ)
    → v < 2 ^ 64
    → bit_or (htonl (u32 (v / 2 ^ 32))) (htonl (u32 v) * 2 ^ 32)
      ≡ htonl (v / 2 ^ 32) + htonl (v % 2 ^ 32) * 2 ^ 32
or_sum v h =
    low_bit_or 32 (htonl (u32 v)) (htonl (u32 (v / 2 ^ 32))) (htonl-lt _)
    ∙ ap (λ (t : ℕ). htonl (u32 v) * 2 ^ 32 + htonl t) {x = u32 (v / 2 ^ 32)} {y = v / 2 ^ 32}
        (omega arith)
    ∙ omega arith

host_to_be64-lt : (v : ℕ) → v < 2 ^ 64 → host_to_be64 v < 2 ^ 64
unfolding host_to_be64
host_to_be64-lt v h = omega (arith, or_sum v h, htonl-lt)

halves :
    (v : ℕ)
    → v < 2 ^ 64
    → (host_to_be64 v / 2 ^ 32 ≡ htonl (v % 2 ^ 32))
      × (host_to_be64 v % 2 ^ 32 ≡ htonl (v / 2 ^ 32))
unfolding host_to_be64
halves v h = omega (arith, or_sum v h, htonl-lt)

be64_to_host-host_to_be64 : (v : ℕ) → v < 2 ^ 64 → be64_to_host (host_to_be64 v) ≡ v
unfolding be64_to_host
be64_to_host-host_to_be64 v h =
    or_sum (host_to_be64 v) (host_to_be64-lt v h)
    ∙ ap₂ (λ (a b : ℕ). htonl a + htonl b * 2 ^ 32) (halves v h).0 (halves v h).1
    ∙ omega (arith, htonl-htonl (v % 2 ^ 32) (omega arith), htonl-htonl (v / 2 ^ 32) (omega arith))

host_to_be64-be64_to_host : (v : ℕ) → v < 2 ^ 64 → host_to_be64 (be64_to_host v) ≡ v
unfolding be64_to_host host_to_be64
host_to_be64-be64_to_host v h = unfold host_to_be64 in be64_to_host-host_to_be64 v h

-- A word of four or eight bytes is read back as it was stored.
pub read_word : (v : ℕ) → v < 2 ^ 32 → htonl (of_le_bytes (le_bytes 4 (htonl v))) ≡ v
read_word v h =
    ap htonl (of_le_bytes-le_bytes 4 (htonl v) (omega (arith, htonl-lt v))) ∙ htonl-htonl v h

pub read_long : (v : ℕ) → v < 2 ^ 64 → be64_to_host (of_le_bytes (le_bytes 8 (host_to_be64 v))) ≡ v
read_long v h =
    ap be64_to_host (of_le_bytes-le_bytes 8 (host_to_be64 v) (omega (arith, host_to_be64-lt v h)))
    ∙ be64_to_host-host_to_be64 v h

-- Four or eight bytes are stored again as they were read.
pub store_word :
    (bs : List ℕ) → All IsByte bs → length bs ≡ 4 → le_bytes 4 (htonl (htonl (of_le_bytes bs))) ≡ bs
store_word bs h e =
    ap (le_bytes 4) (
      htonl-htonl (of_le_bytes bs)
        (subst (λ (n : ℕ). of_le_bytes bs < 256 ^ n) e (of_le_bytes-lt bs h)))
    ∙ ap (λ (n : ℕ). le_bytes n (of_le_bytes bs)) (sym e)
    ∙ le_bytes-of_le_bytes bs h

pub store_long :
    (bs : List ℕ)
    → All IsByte bs
    → length bs ≡ 8
    → le_bytes 8 (host_to_be64 (be64_to_host (of_le_bytes bs))) ≡ bs
store_long bs h e =
    ap (le_bytes 8) (
      host_to_be64-be64_to_host (of_le_bytes bs)
        (subst (λ (n : ℕ). of_le_bytes bs < 256 ^ n) e (of_le_bytes-lt bs h)))
    ∙ ap (λ (n : ℕ). le_bytes n (of_le_bytes bs)) (sym e)
    ∙ le_bytes-of_le_bytes bs h
