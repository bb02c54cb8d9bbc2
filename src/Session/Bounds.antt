-- ===== src/Session/Bounds.antt =====
-- What is extracted fits into the caller's buffer, and the search for the cookie ends.
use ott_quic.Common.{
  ℕ, zero, suc, ◌≤◌, ◌<◌, ◌≡◌, refl, Option, none, some, List, [], ◌∷◌, leb, ◌==◌, if◌then◌else◌,
  length, drop, Bool-cases, Option-cases, inl, inr, arith,
}
use mathlib.Core.Path.{subst}
use ott_quic.Text.{Text, has_prefix, before, after}
use ott_quic.Http.{HttpHeader, get_header}
use ott_quic.Session.{
  extract_bearer, extract_cookie, cookie_loop, skip, sid, from_header, extract_from_headers,
  authorization, cookie_name, bearer,
}

-- A text that was written with its closing NUL into so many bytes.
abbrev pub Fits : ℕ → Option Text → Type 0
Fits out_size none = Unit
Fits out_size (some text) = length text < out_size

guarded-Fits :
    (out_size : ℕ) (text : Text)
    → Fits out_size (if leb out_size (length text) then none else some text)
guarded-Fits out_size text = elim (Bool-cases (leb out_size (length text))) [
  | inl e ↦ rw e tt
  | inr e ↦ let lt : length text < out_size = ground arith in rw e lt
]

extract_bearer-Fits : (auth : Text) (out_size : ℕ) → Fits out_size (extract_bearer auth out_size)
unfolding extract_bearer
extract_bearer-Fits auth out_size = elim (Bool-cases (has_prefix bearer auth)) [
  | inl e ↦ rw (e, extract_bearer) (guarded-Fits out_size (drop 7 auth))
  | inr e ↦ rw (e, extract_bearer) tt
]

cookie_loop-Fits :
    (rounds : ℕ) (p : Text) (out_size : ℕ) → Fits out_size (cookie_loop rounds p out_size)
unfolding cookie_loop
cookie_loop-Fits zero p out_size = tt
cookie_loop-Fits (suc rounds) [] out_size = tt
cookie_loop-Fits (suc rounds) (c ∷ p) out_size = elim (Bool-cases (has_prefix sid (skip (c ∷ p)))) [
  | inl e ↦ rw (e, cookie_loop) (guarded-Fits out_size (before 59 (drop 4 (skip (c ∷ p)))))
  | inr e ↦
      rw (e, cookie_loop)
        (elim (Option-cases (after 59 (skip (c ∷ p)))) [
          | inl n ↦ rw n tt
          | inr (next, n) ↦ rw n (cookie_loop-Fits rounds next out_size)
        ])
]

length-skip : (p : Text) → length (skip p) ≤ length p
unfolding skip
length-skip [] = omega arith
length-skip (c ∷ p) = ground (arith, length-skip p)

length-after : (c : ℕ) (p next : Text) → after c p ≡ some next → length next < length p
unfolding after
length-after c [] next e = cc
length-after c (x ∷ p) next e = ground (arith, length-after c p next)

enough :
    (m n : ℕ) (p : Text) (out_size : ℕ)
    → length p ≤ m
    → length p ≤ n
    → cookie_loop m p out_size ≡ cookie_loop n p out_size
unfolding cookie_loop
enough zero zero p out_size h k = refl
enough zero (suc n) [] out_size h k = refl
enough zero (suc n) (c ∷ p) out_size h k = absurd (omega arith)
enough (suc m) zero [] out_size h k = refl
enough (suc m) zero (c ∷ p) out_size h k = absurd (omega arith)
enough (suc m) (suc n) [] out_size h k = refl
enough (suc m) (suc n) (c ∷ p) out_size h k = elim (Bool-cases (has_prefix sid (skip (c ∷ p)))) [
  | inl e ↦ rw (e, cookie_loop) refl
  | inr e ↦
      rw (e, cookie_loop)
        (elim (Option-cases (after 59 (skip (c ∷ p)))) [
          | inl a ↦ rw a refl
          | inr (next, a) ↦
              let shorter = length-after 59 (skip (c ∷ p)) next a in
              let skipped = length-skip (c ∷ p) in
              rw a (enough m n next out_size (omega arith) (omega arith))
        ])
]

-- The search for the cookie ends within as many rounds as there are characters: with any more rounds
-- it finds the same.
pub extract_cookie-cookie_loop :
    (cookie : Text) (rounds out_size : ℕ)
    → length cookie ≤ rounds
    → extract_cookie cookie out_size ≡ cookie_loop rounds cookie out_size
unfolding extract_cookie
extract_cookie-cookie_loop cookie rounds out_size h =
    enough (length cookie) rounds cookie out_size (omega arith) h

from_header-Fits :
    (extract : Text → ℕ → Option Text) (value : Option Text) (out_size : ℕ)
    → ((text : Text) → Fits out_size (extract text out_size))
    → Fits out_size (from_header extract value out_size)
unfolding from_header
from_header-Fits extract none out_size h = tt
from_header-Fits extract (some value) out_size h = h value

-- Whatever the headers of a request hold, the session id that is extracted from them fits into the
-- caller's buffer with its closing NUL.
pub extract_from_headers-Fits :
    (headers : List HttpHeader) (out_size : ℕ)
    → Fits out_size (extract_from_headers headers out_size)
unfolding extract_from_headers extract_cookie
extract_from_headers-Fits headers out_size =
    let b =
      from_header-Fits extract_bearer (get_header headers authorization) out_size
        (λ t. extract_bearer-Fits t out_size) in
    let c =
      from_header-Fits extract_cookie (get_header headers cookie_name) out_size
        (λ t. cookie_loop-Fits (length t) t out_size) in
    elim (Bool-cases (out_size == 0)) [
      | inl z ↦ rw (z, extract_from_headers) tt
      | inr z ↦
          elim (Option-cases
            (from_header extract_bearer (get_header headers authorization) out_size)) [
              | inl n ↦ rw (z, extract_from_headers) (rw n c)
              | inr (token, n) ↦ rw (z, extract_from_headers) (rw n (subst (Fits out_size) n b))
            ]
    ]
