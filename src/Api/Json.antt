-- ===== src/Api/Json.antt =====
-- The JSON fields of src/http/api.c.
use ott_quic.Common.{ℕ, ◌||◌, Option, none, some, [], ◌∷◌, ◌++◌, leb, ◌==◌, if◌then◌else◌, length}
use ott_quic.Text.{Text, before, after, after_text, signed_decimal, as_int}
use ott_quic.Http.{skip_blanks}

-- The loop over blanks, tabs and colons.
unfoldable pub skip_colon : Text → Text
skip_colon [] = []
skip_colon (c ∷ p) =
    let later = skip_colon p in if (c == b' ') || ((c == 9) || (c == b':')) then later else c ∷ p

-- The text between the quotation marks, neither empty nor longer than the buffer.
unfoldable pub quoted_text : Text → ℕ → Option Text
quoted_text [] out_size = none
quoted_text (c ∷ p) out_size =
    if c == 34
    then elim (after 34 p) [
      | none ↦ none
      | some _ ↦
          let text = before 34 p in
          if (length text == 0) || leb out_size (length text) then none else some text
    ]
    else none

-- `json_extract_string`; the keys are constants that fit into the buffer of the pattern.
unfoldable pub extract_string : Text → Text → ℕ → Option Text
unfolding after_text skip_colon quoted_text
extract_string json key out_size =
    if out_size == 0 then none else elim (after_text (34 ∷ (key ++ (34 ∷ []))) json) [
      | none ↦ none
      | some p ↦ quoted_text (skip_colon p) out_size
    ]

-- The first loop after the key, which goes behind the first `:` or `=`.
unfoldable pub skip_sign : Text → Text
skip_sign [] = []
skip_sign (c ∷ p) =
    let later = skip_sign p in
    if (c == b':') || (c == b'=') then p else if (c == b' ') || (c == 34) then later else c ∷ p

-- The second loop, over blanks and quotation marks.
unfoldable pub skip_quotes : Text → Text
skip_quotes [] = []
skip_quotes (c ∷ p) = let later = skip_quotes p in if (c == b' ') || (c == 34) then later else c ∷ p

-- `json_extract_int_field`: the 32 bits of the `int`.
unfoldable pub extract_int : Text → Text → Option ℕ
unfolding after_text skip_sign skip_quotes skip_blanks signed_decimal
extract_int json key = elim (after_text key json) [
  | none ↦ none
  | some p ↦ elim (signed_decimal (skip_blanks (skip_quotes (skip_sign p)))) [
    | none ↦ none
    | some n ↦ some (as_int n)
  ]
]
