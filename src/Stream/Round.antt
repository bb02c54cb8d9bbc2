-- ===== src/Stream/Round.antt =====
-- One round of the loop of `consume_segments`, without the wrap of its `uint32_t` sums.
use ott_quic.Common.{
  ℕ, ◌+◌, ◌-◌, ◌^◌, ◌≤◌, ◌<◌, ◌≡◌, ◌⊎◌, ap, List, ◌∷◌, ◌++◌, length, take, drop, ltb, leb,
  Bool-cases, inl, inr, arith,
}
use ott_quic.Stream.{Segment, Consumed, consume_loop, overlap, copy_len}

-- The loop leaves by its test, drops a segment that is used up, hands on a part of it because
-- `out_buf` is full, or hands on all that is left of it.
pub data Round (size : ℕ) (s : Segment) (rest : List Segment) (next : ℕ) (out : List ℕ)
    (c : Consumed) : Type 0 where
  stop :
      next < s.offset
      → c ≡ record { segments = s ∷ rest; next_offset = next; out = out }
      → Round size s rest next out c
  skip :
      s.offset + length s.bytes ≤ next
      → c ≡ consume_loop size rest next out
      → Round size s rest next out c
  cut :
      (n : ℕ)
      → s.offset ≤ next
      → n ≡ size - length out
      → next + n < s.offset + length s.bytes
      → c ≡ record {
        segments = record { offset = next + n; bytes = drop (next + n - s.offset) s.bytes } ∷ rest;
        next_offset = next + n;
        out = out ++ take n (drop (next - s.offset) s.bytes);
      }
      → Round size s rest next out c
  through :
      (n : ℕ)
      → s.offset ≤ next
      → next + n ≡ s.offset + length s.bytes
      → 1 ≤ n
      → n ≤ size - length out
      → c ≡ consume_loop size rest (next + n) (out ++ take n (drop (next - s.offset) s.bytes))
      → Round size s rest next out c

overlap_lem : (next : ℕ) (s : Segment) → overlap next s ≡ next - s.offset
unfolding overlap
overlap_lem next s = ground arith

module _ (size : ℕ) (s : Segment) (rest : List Segment) (next : ℕ) (out : List ℕ)
    (below : next < 2 ^ 32) (fits : s.offset + length s.bytes < 2 ^ 32) where
  copy_len_lem :
      s.offset ≤ next
      → next < s.offset + length s.bytes
      → let n = copy_len size next s out in
        (n ≤ size - length out)
        × (next + n ≤ s.offset + length s.bytes)
        × (n ≡ size - length out ⊎ next + n ≡ s.offset + length s.bytes)
  unfolding copy_len overlap
  copy_len_lem le h = ground arith

  pub consume-Round : Round size s rest next out (consume_loop size (s ∷ rest) next out)
  unfolding consume_loop
  consume-Round = elim (Bool-cases (leb s.offset next)) [
    | inr late ↦ stop (ground arith) (rw late)
    | inl due ↦ elim (Bool-cases (leb (length s.bytes) (next - s.offset))) [
      | inl used ↦ skip (ground arith) (rw (due, overlap_lem, used))
      | inr fresh ↦
          elim (Bool-cases (ltb (next - s.offset + copy_len size next s out) (length s.bytes))) [
            | inl part ↦
                let f = copy_len_lem (ground arith) (ground arith) in
                let n = copy_len size next s out in
                cut n (ground arith) (ground (arith, f)) (ground arith)
                  (rw (due, overlap_lem, fresh, part) (ground (arith, f)))
            | inr all ↦
                let f = copy_len_lem (ground arith) (ground arith) in
                let n = copy_len size next s out in
                through n (ground arith) (ground (arith, f)) (ground (arith, f)) (ground (arith, f))
                  (rw (due, overlap_lem, fresh, all)
                    (ap
                      (λ (t : ℕ).
                        consume_loop size rest t (out ++ take n (drop (next - s.offset) s.bytes)))
                      (omega (arith, f))))
          ]
    ]
  ]
