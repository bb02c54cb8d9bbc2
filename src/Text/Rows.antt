-- ===== src/Text/Rows.antt =====
-- The lists of objects in JSON that src/http/api.c and src/server/websocket.c write into a buffer on
-- the stack, and what is left in it.
use ott_quic.Common.{
  ℕ, zero, suc, ◌+◌, ◌-◌, ◌≤◌, ◌≡◌, ◌⊎◌, inl, inr, refl, sym, ap, ◌∙◌, Bool, true, false, Option,
  none, some, List, [], ◌∷◌, ◌++◌, leb, if◌then◌else◌, length, length-append, take, append_assoc,
  append-nil, Bool-cases, arith,
}
use mathlib.Core.Path.{subst}
use ott_quic.Text.{Text, codes}

-- The loop over the rows: `first`, `pos` and what `buf` holds. `snprintf` cuts what it writes to the
-- rest of the buffer, and returns the length of all.
unfoldable pub rows_loop : ℕ → Bool → ℕ → Text → List Text → ℕ × Text
rows_loop size first pos buf [] = (pos, buf)
rows_loop size first pos buf (row ∷ rows) =
    let pos1 = if first then pos else pos + 1 in
    let buf1 = if first then buf else buf ++ codes "," in
    let pos2 = pos1 + length row in
    let buf2 = buf1 ++ take (size - pos1 - 1) row in
    let later = rows_loop size false pos2 buf2 rows in
    if leb (size - 1) pos2 then (pos2, buf2) else later

-- The whole text, unless it is too long. The opening fits into every buffer that the source uses.
unfoldable pub rows_text : ℕ → Text → List Text → Option Text
unfolding rows_loop
rows_text size opening rows =
    let (pos, buf) = rows_loop size true (length opening) opening rows in
    if leb (size - 2) pos then none else some (buf ++ take (size - pos - 1) (codes "]}"))

-- The rows, with commas between them.
abbrev pub separated : Bool → List Text → Text
separated first [] = []
separated first (row ∷ rows) = (if first then [] else codes ",") ++ (row ++ separated false rows)

pub take_all : (n : ℕ) (text : Text) → length text ≤ n → take n text ≡ text
take_all zero [] h = refl
take_all zero (c ∷ text) h = absurd (omega arith)
take_all (suc n) [] h = refl
take_all (suc n) (c ∷ text) h = ap (λ t. c ∷ t) (take_all n text (omega arith))

module _ (size : ℕ) where
  -- What the loop leaves: the whole text, or a text that is known not to fit.
  abbrev Written : Text → ℕ × Text → Type 0
  Written text r =
      ((r.0 ≡ length text) × (r.1 ≡ text)) ⊎ ((size ≤ r.0 + 1) × (size ≤ length text + 1))

  rows_loop-row :
      (first : Bool) (pos : ℕ) (buf row : Text) (rows : List Text) (text : Text)
      → let pos1 = if first then pos else pos + 1 in
        let buf1 = if first then buf else buf ++ codes "," in
        (pos1 ≡ length buf1)
        → (pos1 + 1 ≤ size)
        → (length (buf1 ++ row) ≤ length text)
        → (length (buf1 ++ row) + 2 ≤ size
            → Written text (rows_loop size false (length (buf1 ++ row)) (buf1 ++ row) rows))
        → Written text (rows_loop size first pos buf (row ∷ rows))
  unfolding rows_loop
  rows_loop-row first pos buf row rows text at room longer later =
      let pos1 = if first then pos else pos + 1 in
      let buf1 = if first then buf else buf ++ codes "," in
      let sum : length (buf1 ++ row) ≡ length buf1 + length row = length-append buf1 row in
      elim (Bool-cases (leb (size - 1) (pos1 + length row))) [
        | inl e ↦ rw (e, rows_loop) (inr (ground arith, ground arith))
        | inr e ↦
            let fit : length row ≤ size - pos1 - 1 = ground arith in
            let all = take_all (size - pos1 - 1) row fit in
            let same : pos1 + length row ≡ length (buf1 ++ row) = omega arith in
            rw (e, rows_loop) (rw (all, same) (later (ground arith)))
      ]

  rows_loop-Written :
      (first : Bool) (buf : Text) (rows : List Text)
      → length buf + 2 ≤ size
      → Written (buf ++ separated first rows) (rows_loop size first (length buf) buf rows)
  unfolding rows_loop
  rows_loop-Written first buf [] h = inl (ap length (sym (append-nil buf)), sym (append-nil buf))
  rows_loop-Written first buf (row ∷ rows) h =
      let comma : Text = if first then [] else codes "," in
      let rest = row ++ separated false rows in
      let whole = buf ++ (comma ++ rest) in
      let buf1 : Text = if first then buf else buf ++ codes "," in
      let parts : whole ≡ (buf1 ++ row) ++ separated false rows =
        sym (append_assoc buf comma rest)
        ∙ ap (λ t. t ++ rest) (with_comma first)
        ∙ sym (append_assoc buf1 row (separated false rows)) in
      rows_loop-row first (length buf) buf row rows whole (count first) (omega (arith, short first))
        (omega (arith, ap length parts, length-append (buf1 ++ row) (separated false rows)))
        (λ fit.
          subst
            (λ (t : Text).
              Written t (rows_loop size false (length (buf1 ++ row)) (buf1 ++ row) rows))
            (sym parts) (rows_loop-Written false (buf1 ++ row) rows fit))
    where
      with_comma :
          (f : Bool) → buf ++ (if f then [] else codes ",") ≡ (if f then buf else buf ++ codes ",")
      with_comma true = append-nil buf
      with_comma false = refl

      count :
          (f : Bool)
          → (if f then length buf else length buf + 1)
            ≡ length (if f then buf else buf ++ codes ",")
      count true = refl
      count false = omega (arith, length-append buf (codes ","))

      short : (f : Bool) → (if f then length buf else length buf + 1) + 1 ≤ size
      short true = omega arith
      short false = omega arith

  pub rows_text-separated :
      (opening : Text) (rows : List Text)
      → length opening + 2 ≤ size
      → let text = opening ++ separated true rows in
        rows_text size opening rows
        ≡ (if leb (size - 2) (length text) then none else some (text ++ codes "]}"))
  unfolding rows_text
  rows_text-separated opening rows h =
      let text = opening ++ separated true rows in
      elim (rows_loop-Written true opening rows h) [
        | inl (n, t) ↦ elim (Bool-cases (leb (size - 2) (length text))) [
          | inl e ↦ rw (n, rows_text) (rw e refl)
          | inr e ↦
              let room : 2 ≤ size - length text - 1 = ground arith in
              rw (n, rows_text)
                (rw (e, t) (rw (take_all (size - length text - 1) (codes "]}") room) refl))
        ]
        | inr (n, t) ↦
            let a : leb (size - 2) (rows_loop size true (length opening) opening rows).0 ≡ true =
              ground arith in
            let c : leb (size - 2) (length text) ≡ true = ground arith in
            rw (a, rows_text) (rw c refl)
      ]
