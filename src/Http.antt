-- ===== src/Http.antt =====
-- src/server/http.c and src/server/http.h: the parser of requests, and `http_get_header`.
pub mod Bounds
pub mod RoundTrip
mod Tests
use ott_quic.Common.{
  ℕ, zero, suc, ◌+◌, ◌-◌, Bool, true, false, ◌&&◌, ◌||◌, Option, none, some, List, [], ◌∷◌, ltb,
  leb, ◌==◌, if◌then◌else◌, length, map, ◌>>=◌,
}
use ott_quic.Text.{Text, codes, lower, is_space, same_text, before, after, cut, without}

-- The sizes of the fields of `http_request_t`, with their closing NUL.
abbrev pub max_method : ℕ
max_method = 8

abbrev pub max_path : ℕ
max_path = 128

abbrev pub max_version : ℕ
max_version = 16

abbrev pub max_headers : ℕ
max_headers = 32

abbrev pub max_header_key : ℕ
max_header_key = 64

abbrev pub max_header_val : ℕ
max_header_val = 256

-- `http_header_t`.
pub record HttpHeader : Type 0 where
  pub name : Text
  pub value : Text

-- `http_request_t`: `header_count` is the length of the list.
pub record HttpRequest : Type 0 where
  pub method : Text
  pub path : Text
  pub version : Text
  pub headers : List HttpHeader

-- `http_get_header`, over the headers of a request.
unfoldable pub get_header : List HttpHeader → Text → Option Text
unfolding same_text
get_header [] name = none
get_header (h ∷ headers) name =
    let later = get_header headers name in if same_text h.name name then some h.value else later

unfoldable pub trim_leading : Text → Text
trim_leading [] = []
trim_leading (c ∷ str) =
    let later = trim_leading str in if (c == b' ') || (c == 9) then later else c ∷ str

-- The bytes before the first "\r\n\r\n".
unfoldable pub header_block : Text → Option Text
unfolding without
header_block [] = none
header_block (c ∷ raw) =
    let later = header_block raw in
    elim (without (codes "\r\n\r\n") (c ∷ raw)) [
      | some rest ↦ some []
      | none ↦ elim later [ none ↦ none | some block ↦ some (c ∷ block) ]
    ]

-- The loop that leaves out '\r', and what C reads of a buffer: up to the first NUL.
unfoldable pub without_returns : Text → Text
without_returns [] = []
without_returns (c ∷ block) =
    let later = without_returns block in if c == b'\r' then later else c ∷ later

abbrev pub c_string : Text → Text
c_string buffer = before 0 buffer

-- What `strtok_r` with "\n" returns one after the other: the lines that are not empty.
unfoldable pub lines : Text → List Text
lines [] = []
lines (c ∷ buffer) =
    let later = lines buffer in
    if c == b'\n' then later else elim buffer [
      | [] ↦ (c ∷ []) ∷ []
      | d ∷ _ ↦
          if d == b'\n'
          then (c ∷ []) ∷ later
          else elim later [ [] ↦ (c ∷ []) ∷ [] | line ∷ others ↦ (c ∷ line) ∷ others ]
    ]

-- The conversion `%Ns` after the blanks: at most so many characters that are not blank, and what
-- comes after them.
unfoldable pub word : ℕ → Text → Text × Text
word zero text = ([], text)
word (suc width) [] = ([], [])
word (suc width) (c ∷ text) =
    let (found, rest) = word width text in if is_space c then ([], c ∷ text) else (c ∷ found, rest)

unfoldable pub skip_blanks : Text → Text
skip_blanks [] = []
skip_blanks (c ∷ text) = let later = skip_blanks text in if is_space c then later else c ∷ text

-- A conversion `%Ns` fails at the end of the text.
unfoldable pub word_at : ℕ → Text → Option (Text × Text)
unfolding word
word_at width [] = none
word_at width (c ∷ text) = some (word width (c ∷ text))

unfoldable pub scan_word : ℕ → Text → Option (Text × Text)
unfolding word_at skip_blanks
scan_word width text = word_at width (skip_blanks text)

-- `sscanf(line, "%7s %127s %15s", ...) == 3`.
unfoldable pub scan_line : Text → Option (Text × Text × Text)
unfolding scan_word
scan_line line = do
  (method, rest1) ← scan_word (max_method - 1) line
  (path, rest2) ← scan_word (max_path - 1) rest1
  (version, rest3) ← scan_word (max_version - 1) rest2
  some (method, path, version)

-- The header that a line with a colon holds.
unfoldable pub header_of : Text → Text → HttpHeader
unfolding trim_leading
header_of key value = record {
  name = map lower (cut max_header_key key);
  value = cut max_header_val (trim_leading value);
}

-- The loop over the lines, with room for so many headers.
unfoldable pub header_loop : ℕ → List Text → List HttpHeader
unfolding before after header_of
header_loop room [] = []
header_loop zero (line ∷ others) = []
header_loop (suc room) (line ∷ others) =
    let skipped = header_loop (suc room) others in
    let later = header_loop room others in
    elim (after b':' line) [
      | none ↦ skipped
      | some value ↦ header_of (before b':' line) value ∷ later
    ]

-- The request line and the headers.
unfoldable pub parse_lines : List Text → Option HttpRequest
unfolding scan_line header_loop
parse_lines [] = none
parse_lines (line ∷ others) = elim (scan_line line) [
  | none ↦ none
  | some (method, path, version) ↦ some (record {
    method = method;
    path = path;
    version = version;
    headers = header_loop max_headers others;
  })
]

-- `http_parse_request`; the first argument is whether `malloc` succeeds.
unfoldable pub parse_request : Bool → Text → Option HttpRequest
unfolding header_block without_returns lines parse_lines
parse_request allocated raw = elim (header_block raw) [
  | none ↦ none
  | some block ↦ if allocated then parse_lines (lines (c_string (without_returns block))) else none
]
