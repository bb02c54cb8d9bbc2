-- ===== src/Http/Bounds.antt =====
-- What `http_parse_request` returns fits into `http_request_t`.
use ott_quic.Common.{
  ℕ, zero, suc, ◌-◌, ◌≤◌, ◌<◌, ◌≡◌, refl, Bool, false, Option, none, some, List, [], ◌∷◌, length,
  map, All, length-take, Bool-cases, Option-cases, inl, inr, arith,
}
use mathlib.Core.Path.{subst}
use ott_quic.Text.{Text, lower, is_space, before, after, cut}
use ott_quic.Http.{
  HttpHeader, HttpRequest, max_method, max_path, max_version, max_headers, max_header_key,
  max_header_val, header_of, header_loop, word, word_at, scan_word, scan_line, skip_blanks,
  parse_lines, parse_request, trim_leading, header_block, lines, c_string, without_returns,
}

-- A word that was read into a buffer of so many bytes.
abbrev pub IsWord : ℕ → Text → Type 0
IsWord size text = (length text < size) × All (λ c. is_space c ≡ false) text

abbrev pub IsLower : Text → Type 0
IsLower text = All (λ c. lower c ≡ c) text

abbrev pub HeaderFits : HttpHeader → Type 0
HeaderFits h = (length h.name < max_header_key) × IsLower h.name × (length h.value < max_header_val)

-- A request that fits into its structure.
pub record RequestFits (req : HttpRequest) : Type 0 where
  pub method : IsWord max_method req.method
  pub path : IsWord max_path req.path
  pub version : IsWord max_version req.version
  pub count : length req.headers ≤ max_headers
  pub all : All HeaderFits req.headers

abbrev pub AnyFits : Option HttpRequest → Type 0
AnyFits none = Unit
AnyFits (some req) = RequestFits req

length-cut : (size : ℕ) (text : Text) → 0 < size → length (cut size text) < size
length-cut size text h = omega (arith, length-take (size - 1) text)

length-map : (f : ℕ → ℕ) (text : Text) → length (map f text) ≡ length text
length-map f [] = refl
length-map f (c ∷ text) = omega (arith, length-map f text)

lower_twice : (c : ℕ) → lower (lower c) ≡ lower c
lower_twice c = ground arith

map-IsLower : (text : Text) → IsLower (map lower text)
map-IsLower [] = tt
map-IsLower (c ∷ text) = (lower_twice c, map-IsLower text)

header_of-HeaderFits : (key value : Text) → HeaderFits (header_of key value)
unfolding header_of
header_of-HeaderFits key value =
    let a = length-cut max_header_key key (omega arith) in
    let b = length-map lower (cut max_header_key key) in
    let c = length-cut max_header_val (trim_leading value) (omega arith) in
    (omega arith, map-IsLower (cut max_header_key key), c)

header_loop-HeaderFits :
    (room : ℕ) (others : List Text)
    → (length (header_loop room others) ≤ room) × All HeaderFits (header_loop room others)
unfolding header_loop
header_loop-HeaderFits room [] = (omega arith, tt)
header_loop-HeaderFits zero (line ∷ others) = (omega arith, tt)
header_loop-HeaderFits (suc room) (line ∷ others) = elim (Option-cases (after b':' line)) [
  | inl e ↦ rw (e, header_loop) (header_loop-HeaderFits (suc room) others)
  | inr (value, e) ↦
      let (count, all) = header_loop-HeaderFits room others in
      rw (e, header_loop) (omega arith, (header_of-HeaderFits (before b':' line) value, all))
]

word-IsWord : (width : ℕ) (text : Text) → IsWord (suc width) (word width text).0
unfolding word
word-IsWord zero text = (omega arith, tt)
word-IsWord (suc width) [] = (omega arith, tt)
word-IsWord (suc width) (c ∷ text) =
    let (short, all) = word-IsWord width text in
    elim (Bool-cases (is_space c)) [
      | inl e ↦ rw (e, word) (omega arith, tt)
      | inr e ↦ rw (e, word) (omega arith, (e, all))
    ]

abbrev IsScan : ℕ → Option (Text × Text) → Type 0
IsScan size none = Unit
IsScan size (some (found, rest)) = IsWord size found

word_at-IsScan : (width : ℕ) (text : Text) → IsScan (suc width) (word_at width text)
unfolding word_at
word_at-IsScan width [] = tt
word_at-IsScan width (c ∷ text) = word-IsWord width (c ∷ text)

scan_word-IsScan : (width : ℕ) (text : Text) → IsScan (suc width) (scan_word width text)
unfolding scan_word
scan_word-IsScan width text = word_at-IsScan width (skip_blanks text)

abbrev LineFits : Option (Text × Text × Text) → Type 0
LineFits none = Unit
LineFits (some (method, path, version)) =
    IsWord max_method method × IsWord max_path path × IsWord max_version version

scan_line-LineFits : (line : Text) → LineFits (scan_line line)
unfolding scan_line
scan_line-LineFits line =
    let m = scan_word-IsScan 7 line in
    elim (Option-cases (scan_word 7 line)) [
      | inl e ↦ rw e tt
      | inr ((method, rest1), e) ↦
          let p = scan_word-IsScan 127 rest1 in
          elim (Option-cases (scan_word 127 rest1)) [
            | inl f ↦ rw e (rw f tt)
            | inr ((path, rest2), f) ↦
                let v = scan_word-IsScan 15 rest2 in
                elim (Option-cases (scan_word 15 rest2)) [
                  | inl g ↦ rw e (rw f (rw g tt))
                  | inr ((version, rest3), g) ↦ rw e (
                      rw f (
                        rw g (
                          subst (IsScan max_method) e m,
                          subst (IsScan max_path) f p,
                          subst (IsScan max_version) g v,
                        )))
                ]
          ]
    ]

parse_lines-AnyFits : (ls : List Text) → AnyFits (parse_lines ls)
unfolding parse_lines
parse_lines-AnyFits [] = tt
parse_lines-AnyFits (line ∷ others) =
    let fit = scan_line-LineFits line in
    elim (Option-cases (scan_line line)) [
      | inl e ↦ rw (e, parse_lines) tt
      | inr ((method, path, version), e) ↦
          let (m, p, v) = subst LineFits e fit in
          let (count, all) = header_loop-HeaderFits max_headers others in
          rw (e, parse_lines)
            (record { method = m; path = p; version = v; count = count; all = all })
    ]

-- Whatever bytes arrive, a request that is parsed fits into `http_request_t`: the method, the path
-- and the version have no blank and leave room for their closing NUL, there are at most 32 headers,
-- their names and values leave room for the closing NUL, and no name has an upper-case letter.
pub parse_request-AnyFits : (allocated : Bool) (raw : Text) → AnyFits (parse_request allocated raw)
unfolding parse_request
parse_request-AnyFits allocated raw = elim (Option-cases (header_block raw)) [
  | inl e ↦ rw (e, parse_request) tt
  | inr (block, e) ↦ elim (Bool-cases allocated) [
    | inl a ↦
        rw (e, parse_request)
          (rw a (parse_lines-AnyFits (lines (c_string (without_returns block)))))
    | inr a ↦ rw (e, parse_request) (rw a tt)
  ]
]
