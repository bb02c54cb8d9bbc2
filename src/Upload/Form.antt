-- ===== src/Upload/Form.antt =====
-- The parser of multipart bodies of src/server/upload.c, and the boundary of a content type.
use ott_quic.Common.{
  ℕ, zero, suc, Bool, true, false, not, ◌&&◌, ◌||◌, Option, none, some, [], ◌∷◌, ◌++◌, ltb, ◌==◌,
  if◌then◌else◌, length, take, drop,
}
use ott_quic.Text.{Text, codes, without, after_text}
use ott_quic.Http.{c_string}

-- `find_bytes` for a needle that is not empty: what stands before the first match, and the text from
-- the match on.
unfoldable pub find_bytes : Text → Text → Option (Text × Text)
unfolding without
find_bytes needle [] = none
find_bytes needle (c ∷ hay) =
    let later = find_bytes needle hay in
    elim (without needle (c ∷ hay)) [
      | some rest ↦ some ([], c ∷ hay)
      | none ↦ elim later [ none ↦ none | some (front, rest) ↦ some (c ∷ front, rest) ]
    ]

-- What `parse_multipart` has found: the last buffer of a file, the length of the last file that was
-- not empty, the title and the description.
pub record Parts : Type 0 where
  pub file : Option Text
  pub file_len : ℕ
  pub title : Text
  pub description : Text

abbrev pub no_parts : Parts
no_parts = record { file = none; file_len = 0; title = []; description = [] }

-- The text behind "Content-Disposition:" and behind a name in it.
unfoldable pub named : Text → Text → Option Text
unfolding after_text
named key hdr = elim (after_text (codes "Content-Disposition:") hdr) [
  | none ↦ none
  | some disp ↦ after_text key disp
]

-- Whether the part has a name that begins with this text.
unfoldable pub is_named : Option Text → Text → Bool
unfolding without
is_named none key = false
is_named (some name) key = elim (without key name) [ none ↦ false | some rest ↦ true ]

-- The "\r\n" before a boundary.
unfoldable pub trim_end : Text → Text
trim_end [] = []
trim_end (c ∷ text) =
    let later = trim_end text in
    elim text [
      | [] ↦ c ∷ []
      | d ∷ [] ↦ if (c == b'\r') && (d == b'\n') then [] else c ∷ later
      | _ ∷ (_ ∷ _) ↦ c ∷ later
    ]

-- One part, by its header and its content; the first argument is whether `malloc` succeeds.
unfoldable pub add_part : Bool → Text → Text → Parts → Parts
unfolding named is_named
add_part allocated hdr content parts = elim (named (codes "filename=\"") hdr) [
  | some filename ↦ if not allocated then record parts { file = none } else record parts {
    file = some content;
    file_len = if ltb 0 (length content) then length content else parts.file_len;
  }
  | none ↦
      if is_named (named (codes "name=\"") hdr) (codes "title")
      then record parts { title = c_string (take 127 content) }
      else if is_named (named (codes "name=\"") hdr) (codes "description")
      then record parts { description = c_string (take 255 content) }
      else parts
]

-- The text behind the boundary that comes first, unless it is the last one.
unfoldable pub behind_boundary : Text → Text → Option Text
unfolding find_bytes without
behind_boundary boundary p = elim (find_bytes boundary p) [
  | none ↦ none
  | some (front, rest) ↦
      let inner = drop (length boundary) rest in
      if ltb (length inner) 2
      then none
      else elim (without (codes "--") inner) [ some last ↦ none | none ↦ some inner ]
]

-- The header of a part, its content, and the text from the next boundary on.
unfoldable pub next_part : Text → Text → Option (Text × Text × Text)
unfolding behind_boundary find_bytes trim_end
next_part boundary p = elim (behind_boundary boundary p) [
  | none ↦ none
  | some inner ↦ elim (find_bytes (codes "\r\n\r\n") inner) [
    | none ↦ none
    | some (hdr, rest) ↦ elim (find_bytes boundary (drop 4 rest)) [
      | none ↦ none
      | some (content, next) ↦ some (c_string (take 511 hdr), trim_end content, next)
    ]
  ]
]

-- The loop: every round goes on behind a boundary, so there are as many rounds as characters.
unfoldable pub part_loop : ℕ → Bool → Text → Text → Parts → Parts
unfolding next_part add_part
part_loop zero allocated boundary p parts = parts
part_loop (suc rounds) allocated boundary p parts = elim (next_part boundary p) [
  | none ↦ parts
  | some (hdr, content, next) ↦
      part_loop rounds allocated boundary next (add_part allocated hdr content parts)
]

-- `parse_multipart`, and the test of `file_len` behind its call.
unfoldable pub parse_multipart : Bool → Text → Text → Option (Text × Parts)
unfolding part_loop
parse_multipart allocated body boundary =
    let parts = part_loop (length body) allocated boundary body no_parts in
    elim parts.file [
      | none ↦ none
      | some file ↦ if ltb 0 parts.file_len then some (file, parts) else none
    ]

-- The loop that takes the ends of lines from the boundary: from the text backwards.
unfoldable pub trim_breaks : Text → Text
trim_breaks [] = []
trim_breaks (c ∷ text) =
    let later = trim_breaks text in
    elim later [
      | [] ↦ if (c == b'\r') || (c == b'\n') then [] else c ∷ []
      | d ∷ rest ↦ c ∷ (d ∷ rest)
    ]

-- The boundary of the content type, `none` if the type is not that of a form.
unfoldable pub boundary_of : Text → Option Text
unfolding after_text trim_breaks
boundary_of content_type = elim (after_text (codes "multipart/form-data; boundary=") content_type) [
  | none ↦ none
  | some ct ↦ some (trim_breaks (codes "--" ++ take 100 ct))
]
