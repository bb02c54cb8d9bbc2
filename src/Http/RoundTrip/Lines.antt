-- ===== src/Http/RoundTrip/Lines.antt =====
-- Lines with "\r\n" behind each, and how `http_parse_request` takes them apart.
use ott_quic.Common.{
  ℕ, ◌<◌, ◌≡◌, refl, ap, Bool, true, false, not, ◌||◌, some, List, [], ◌∷◌, ◌++◌, ◌==◌, length, All,
  arith,
}
use ott_quic.Text.{Text, codes, before, without}
use ott_quic.Http.{header_block, without_returns, c_string, lines}

-- A character that a line can hold.
abbrev pub plain : ℕ → Bool
plain c = not ((c == 0) || ((c == b'\n') || (c == b'\r')))

-- A line that `strtok_r` does not pass over.
abbrev pub IsLine : Text → Type 0
IsLine line = (0 < length line) × All (λ c. plain c ≡ true) line

-- The lines, a line that is empty, and what follows.
abbrev pub wire : List Text → Text → Text
wire [] body = codes "\r\n" ++ body
wire (l ∷ ls) body = l ++ (codes "\r\n" ++ wire ls body)

-- The lines after the first, each with what stands before it.
abbrev led : Text → List Text → Text
led mark [] = []
led mark (l ∷ ls) = mark ++ (l ++ led mark ls)

header_block-cons :
    (c : ℕ) (raw block : Text)
    → (13 == c) ≡ false
    → header_block raw ≡ some block
    → header_block (c ∷ raw) ≡ some (c ∷ block)
unfolding header_block without
header_block-cons c raw block other e = rw (other, header_block, without) (rw e refl)

-- A "\r\n" that no other follows.
header_block-single :
    (c : ℕ) (raw block : Text)
    → (13 == c) ≡ false
    → header_block (c ∷ raw) ≡ some block
    → header_block (codes "\r\n" ++ (c ∷ raw)) ≡ some (codes "\r\n" ++ block)
unfolding header_block without
header_block-single c raw block other e =
    let second = header_block-cons 10 (c ∷ raw) block refl e in
    rw (other, header_block, without) (rw second refl)

header_block-plain :
    (l raw block : Text)
    → All (λ c. plain c ≡ true) l
    → header_block raw ≡ some block
    → header_block (l ++ raw) ≡ some (l ++ block)
header_block-plain [] raw block h e = e
header_block-plain (c ∷ l) raw block (p, h) e =
    header_block-cons c (l ++ raw) (l ++ block) (ground arith) (header_block-plain l raw block h e)

header_block-led :
    (ls : List Text) (body : Text)
    → All IsLine ls
    → header_block (codes "\r\n" ++ wire ls body) ≡ some (led (codes "\r\n") ls)
unfolding header_block without
header_block-led [] body h = refl
header_block-led ([] ∷ ls) body ((p, q), h) = absurd (omega arith)
header_block-led ((c ∷ l) ∷ ls) body ((p, (q, r)), h) =
    let rest = codes "\r\n" ++ wire ls body in
    header_block-single c (l ++ rest) ((c ∷ l) ++ led (codes "\r\n") ls) (ground arith)
      (header_block-plain (c ∷ l) rest (led (codes "\r\n") ls) (q, r) (header_block-led ls body h))

-- The block before the empty line.
pub wire-header_block :
    (l : Text) (ls : List Text) (body : Text)
    → IsLine l
    → All IsLine ls
    → header_block (wire (l ∷ ls) body) ≡ some (l ++ led (codes "\r\n") ls)
wire-header_block l ls body (p, q) h =
    header_block-plain l (codes "\r\n" ++ wire ls body) (led (codes "\r\n") ls) q
      (header_block-led ls body h)

without_returns-plain :
    (l block : Text)
    → All (λ c. plain c ≡ true) l
    → without_returns (l ++ block) ≡ l ++ without_returns block
unfolding without_returns
without_returns-plain [] block h = refl
without_returns-plain (c ∷ l) block (p, h) =
    let other : (c == 13) ≡ false = ground arith in
    rw other (ap (λ t. c ∷ t) (without_returns-plain l block h))

before-plain :
    (l block : Text) → All (λ c. plain c ≡ true) l → before 0 (l ++ block) ≡ l ++ before 0 block
unfolding before
before-plain [] block h = refl
before-plain (c ∷ l) block (p, h) =
    let other : (c == 0) ≡ false = ground arith in
    rw other (ap (λ t. c ∷ t) (before-plain l block h))

without_returns-led :
    (ls : List Text)
    → All IsLine ls
    → c_string (without_returns (led (codes "\r\n") ls)) ≡ led (codes "\n") ls
unfolding without_returns before
without_returns-led [] h = refl
without_returns-led (l ∷ ls) ((p, q), h) = rw (without_returns-plain l (led (codes "\r\n") ls) q) (
    rw (before-plain l (without_returns (led (codes "\r\n") ls)) q)
      (ap (λ t. b'\n' ∷ (l ++ t)) (without_returns-led ls h)))

lines-plain :
    (l : Text) (ls : List Text)
    → IsLine l
    → lines (led (codes "\n") ls) ≡ ls
    → lines (l ++ led (codes "\n") ls) ≡ l ∷ ls
unfolding lines
lines-plain [] ls (p, q) e = absurd (omega arith)
lines-plain (c ∷ []) [] (p, (q, r)) e =
    let other : (c == 10) ≡ false = ground arith in rw other refl
lines-plain (c ∷ []) (m ∷ ls) (p, (q, r)) e =
    let other : (c == 10) ≡ false = ground arith in rw other (ap (λ t. (c ∷ []) ∷ t) e)
lines-plain (c ∷ (d ∷ l)) ls (p, (q, (r, s))) e =
    let other : (c == 10) ≡ false = ground arith in
    let next : (d == 10) ≡ false = ground arith in
    rw (other, lines) (rw (lines-plain (d ∷ l) ls (omega arith, (r, s)) e) (rw next refl))

lines-led : (ls : List Text) → All IsLine ls → lines (led (codes "\n") ls) ≡ ls
unfolding lines
lines-led [] h = refl
lines-led (l ∷ ls) (p, h) = lines-plain l ls p (lines-led ls h)

-- The lines of the block.
pub wire-lines :
    (l : Text) (ls : List Text)
    → IsLine l
    → All IsLine ls
    → lines (c_string (without_returns (l ++ led (codes "\r\n") ls))) ≡ l ∷ ls
wire-lines l ls (p, q) h = rw (without_returns-plain l (led (codes "\r\n") ls) q) (
    rw (before-plain l (without_returns (led (codes "\r\n") ls)) q)
      (rw (without_returns-led ls h) (lines-plain l ls (p, q) (lines-led ls h))))
