-- ===== src/Session.antt =====
-- src/auth/session.c: session ids and where a request carries one.
pub mod Bounds
pub mod Hash
pub mod Login
mod Tests
use Prim.Native.Nat.{bit_and}
use ott_quic.Common.{
  ℕ, zero, suc, ◌+◌, ◌/◌, ◌^◌, Bool, true, false, ◌||◌, Option, none, some, List, [], ◌∷◌, ltb, leb,
  ◌==◌, if◌then◌else◌, length, take, drop,
}
use ott_quic.Text.{Text, has_prefix, before, after}
use ott_quic.Http.{HttpHeader, get_header}

abbrev pub session_id_len : ℕ
session_id_len = 64

-- The digit `hex[n]`.
unfoldable pub hex_digit : ℕ → ℕ
hex_digit n = if ltb n 10 then 48 + n else 87 + n

-- The loop over the random bytes.
unfoldable pub hex : List ℕ → Text
unfolding hex_digit
hex [] = []
hex (b ∷ bytes) = hex_digit (bit_and (b / 2 ^ 4) 0xF) ∷ hex_digit (bit_and b 0xF) ∷ hex bytes

-- The first argument is what `read_random` gets from the system, if it succeeds.
unfoldable pub generate_id : Option (List ℕ) → ℕ → Option Text
unfolding hex
generate_id random out_size =
    if ltb out_size (session_id_len + 1)
    then none
    else elim random [ none ↦ none | some bytes ↦ some (hex bytes) ]

-- "Bearer ".
abbrev pub bearer : Text
bearer = 66 ∷ 101 ∷ 97 ∷ 114 ∷ 101 ∷ 114 ∷ 32 ∷ []

-- "SID=".
abbrev pub sid : Text
sid = 83 ∷ 73 ∷ 68 ∷ 61 ∷ []

unfoldable pub extract_bearer : Text → ℕ → Option Text
unfolding has_prefix
extract_bearer auth out_size =
    if has_prefix bearer auth
    then (if leb out_size (length (drop 7 auth)) then none else some (drop 7 auth))
    else none

-- The inner loop over blanks, tabs and semicolons.
unfoldable pub skip : Text → Text
skip [] = []
skip (c ∷ p) = let later = skip p in if (c == 32) || ((c == 9) || (c == 59)) then later else c ∷ p

-- What a round finds at a cookie, and otherwise the cookies after it.
unfoldable pub cookie_loop : ℕ → Text → ℕ → Option Text
unfolding skip has_prefix before after
cookie_loop zero p out_size = none
cookie_loop (suc rounds) [] out_size = none
cookie_loop (suc rounds) (c ∷ p) out_size =
    let start = skip (c ∷ p) in
    let found = before 59 (drop 4 start) in
    let later : Option Text = elim (after 59 start) [
      | none ↦ none
      | some next ↦ cookie_loop rounds next out_size
    ] in
    if has_prefix sid start
    then (if leb out_size (length found) then none else some found)
    else later

-- Each round reads at least one character: as many rounds as characters are enough.
unfoldable pub extract_cookie : Text → ℕ → Option Text
unfolding cookie_loop
extract_cookie cookie out_size = cookie_loop (length cookie) cookie out_size

-- "authorization" and "cookie".
abbrev pub authorization : Text
authorization = 97 ∷ 117 ∷ 116 ∷ 104 ∷ 111 ∷ 114 ∷ 105 ∷ 122 ∷ 97 ∷ 116 ∷ 105 ∷ 111 ∷ 110 ∷ []

abbrev pub cookie_name : Text
cookie_name = 99 ∷ 111 ∷ 111 ∷ 107 ∷ 105 ∷ 101 ∷ []

-- `extract` at the value of a header, if the request has it.
unfoldable pub from_header : (Text → ℕ → Option Text) → Option Text → ℕ → Option Text
from_header extract none out_size = none
from_header extract (some value) out_size = extract value out_size

unfoldable pub extract_from_headers : List HttpHeader → ℕ → Option Text
unfolding from_header get_header extract_bearer extract_cookie
extract_from_headers headers out_size =
    if out_size == 0
    then none
    else elim (from_header extract_bearer (get_header headers authorization) out_size) [
      | some token ↦ some token
      | none ↦ from_header extract_cookie (get_header headers cookie_name) out_size
    ]
