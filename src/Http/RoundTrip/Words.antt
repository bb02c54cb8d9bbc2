-- ===== src/Http/RoundTrip/Words.antt =====
-- The request line and the lines of the headers.
use ott_quic.Common.{
  ℕ, zero, suc, ◌-◌, ◌≤◌, ◌<◌, ◌≡◌, refl, ap, ◌∙◌, true, false, not, ◌&&◌, ◌||◌, some, List, [],
  ◌∷◌, ◌++◌, ◌==◌, length, length-append, map, All, arith,
}
use ott_quic.Text.{Text, codes, lower, is_space, before, after, cut}
use ott_quic.Text.Rows.{take_all}
use ott_quic.Http.{
  HttpHeader, header_loop, header_of, word, word_at, scan_word, scan_line, skip_blanks,
  trim_leading,
}
use ott_quic.Http.Bounds.{HeaderFits, IsWord, IsLower}
use ott_quic.Http.RoundTrip.Lines.{IsLine, plain}

-- What a word ends at: a blank, or the end of the text.
abbrev IsEnd : Text → Type 0
IsEnd [] = Unit
IsEnd (c ∷ text) = is_space c ≡ true

word-append :
    (width : ℕ) (w rest : Text)
    → IsWord (suc width) w
    → IsEnd rest
    → word width (w ++ rest) ≡ (w, rest)
unfolding word
word-append zero [] rest h end = refl
word-append zero (c ∷ w) rest (h, k) end = absurd (omega arith)
word-append (suc width) [] [] h end = refl
word-append (suc width) [] (d ∷ rest) h end = rw end refl
word-append (suc width) (c ∷ w) rest (h, (p, k)) end =
    rw (p, word) (rw (word-append width w rest (omega arith, k) end) refl)

scan_word-append :
    (width : ℕ) (w rest : Text)
    → 0 < length w
    → IsWord (suc width) w
    → IsEnd rest
    → scan_word width (w ++ rest) ≡ some (w, rest)
unfolding scan_word skip_blanks word_at
scan_word-append width [] rest some_char h end = absurd (omega arith)
scan_word-append width (c ∷ w) rest some_char (h, (p, k)) end =
    rw p (ap some (word-append width (c ∷ w) rest (h, (p, k)) end))

scan_word-blank :
    (width : ℕ) (w rest : Text)
    → 0 < length w
    → IsWord (suc width) w
    → IsEnd rest
    → scan_word width (b' ' ∷ (w ++ rest)) ≡ some (w, rest)
unfolding scan_word skip_blanks
scan_word-blank width w rest some_char h end = scan_word-append width w rest some_char h end

-- The three words of a request line.
pub scan_line-words :
    (method path version : Text)
    → 0 < length method
    → 0 < length path
    → 0 < length version
    → IsWord 8 method
    → IsWord 128 path
    → IsWord 16 version
    → scan_line (method ++ (b' ' ∷ (path ++ (b' ' ∷ (version ++ [])))))
      ≡ some (method, path, version)
unfolding scan_line
scan_line-words method path version m1 p1 v1 m p v =
    let first = scan_word-append 7 method (b' ' ∷ (path ++ (b' ' ∷ (version ++ [])))) m1 m refl in
    let second = scan_word-blank 127 path (b' ' ∷ (version ++ [])) p1 p refl in
    let third = scan_word-blank 15 version [] v1 v tt in rw first (rw second (rw third refl))

-- A value that does not begin with what `trim_leading` takes away.
abbrev IsTrimmed : Text → Type 0
IsTrimmed [] = Unit
IsTrimmed (c ∷ value) = ((c == b' ') || (c == 9)) ≡ false

-- A header that fits and that a line can hold.
abbrev pub IsPrintable : HttpHeader → Type 0
IsPrintable h =
    HeaderFits h
    × All (λ c. plain c && not (c == b':') ≡ true) h.name
    × All (λ c. plain c ≡ true) h.value
    × IsTrimmed h.value

abbrev pub header_line : HttpHeader → Text
header_line h = h.name ++ (codes ": " ++ h.value)

cut_all : (size : ℕ) (text : Text) → length text < size → cut size text ≡ text
cut_all size text h = take_all (size - 1) text (omega arith)

map-lower : (text : Text) → IsLower text → map lower text ≡ text
map-lower [] h = refl
map-lower (c ∷ text) (p, h) = rw p (ap (λ t. c ∷ t) (map-lower text h))

colon :
    (name value : Text)
    → All (λ c. plain c && not (c == b':') ≡ true) name
    → (after b':' (name ++ (b':' ∷ value)) ≡ some value)
      × (before b':' (name ++ (b':' ∷ value)) ≡ name)
unfolding before after
colon [] value h = (refl, refl)
colon (c ∷ name) value (p, h) =
    let other : (c == 58) ≡ false = ground arith in
    let (found, front) = colon name value h in (rw other found, rw other (ap (λ t. c ∷ t) front))

trim_leading_lem : (value : Text) → IsTrimmed value → trim_leading (b' ' ∷ value) ≡ value
unfolding trim_leading
trim_leading_lem [] h = refl
trim_leading_lem (c ∷ value) h = rw h refl

header_of-header_line : (h : HttpHeader) → IsPrintable h → header_of h.name (b' ' ∷ h.value) ≡ h
unfolding header_of
header_of-header_line h ((a, b, c), names, values, trimmed) =
    let name_eq = ap (map lower) (cut_all 64 h.name a) ∙ map-lower h.name b in
    let value_eq = ap (cut 256) (trim_leading_lem h.value trimmed) ∙ cut_all 256 h.value c in
    rw name_eq (rw value_eq refl)

-- The headers that their lines hold.
pub header_loop-header_line :
    (room : ℕ) (headers : List HttpHeader)
    → length headers ≤ room
    → All IsPrintable headers
    → header_loop room (map header_line headers) ≡ headers
unfolding header_loop
header_loop-header_line room [] le h = refl
header_loop-header_line zero (x ∷ headers) le h = absurd (omega arith)
header_loop-header_line (suc room) (x ∷ headers) le (p, h) =
    let (found, front) = colon x.name (b' ' ∷ x.value) p.1 in
    rw (found, header_loop)
      (rw front (
        rw (header_of-header_line x p)
          (ap (λ t. x ∷ t) (header_loop-header_line room headers (omega arith) h))))

pub append-All :
    (l m : Text)
    → All (λ c. plain c ≡ true) l
    → All (λ c. plain c ≡ true) m
    → All (λ c. plain c ≡ true) (l ++ m)
append-All [] m h k = k
append-All (c ∷ l) m (p, h) k = (p, append-All l m h k)

names-plain :
    (name : Text)
    → All (λ c. plain c && not (c == b':') ≡ true) name
    → All (λ c. plain c ≡ true) name
names-plain [] h = tt
names-plain (c ∷ name) (p, h) = (ground arith, names-plain name h)

pub header_line-IsLine : (h : HttpHeader) → IsPrintable h → IsLine (header_line h)
header_line-IsLine h (fits, names, values, trimmed) = (
  omega (arith, length-append h.name (codes ": " ++ h.value)),
  append-All h.name _ (names-plain h.name names) (refl, (refl, values)),
)
