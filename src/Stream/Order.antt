-- ===== src/Stream/Order.antt =====
-- The order in which the chain of segments is kept, and what the loop leaves undelivered.
use ott_quic.Common.{
  ℕ, ◌+◌, ◌-◌, ◌^◌, ◌≤◌, ◌<◌, max, ◌≡◌, ◌⊎◌, List, [], ◌∷◌, ◌++◌, length, take, drop, All, ltb,
  Bool-cases, length-append, length-drop, length-take, inl, inr, arith,
}
use ott_quic.Stream.{Segment, Consumed, insert_at, consume_loop}
use ott_quic.Stream.Round.{stop, skip, cut, through, consume-Round}

-- The segment ends below 2 ^ 32.
abbrev pub Fits : Segment → Type 0
Fits s = s.offset + length s.bytes < 2 ^ 32

-- `s` may stand before `t` in a stream that waits for `next`: what lies behind `next` counts as at
-- `next`.
abbrev pub Before : ℕ → Segment → Segment → Type 0
Before next s t = max s.offset next ≤ max t.offset next

-- A trimmed segment may lie behind its successors, so plain order of the offsets is not kept.
abbrev pub Ordered : ℕ → List Segment → Type 0
Ordered next [] = Unit
Ordered next (s ∷ rest) = All (Before next s) rest × Ordered next rest

Before-later :
    (next next' : ℕ) (s : Segment) (rest : List Segment)
    → next ≤ next'
    → All (Before next s) rest
    → All (Before next' s) rest
Before-later next next' s [] h a = tt
Before-later next next' s (t ∷ rest) h (b, a) = (omega arith, Before-later next next' s rest h a)

Ordered-later :
    (next next' : ℕ) (segs : List Segment) → next ≤ next' → Ordered next segs → Ordered next' segs
Ordered-later next next' [] h o = tt
Ordered-later next next' (s ∷ rest) h (a, o) =
    (Before-later next next' s rest h a, Ordered-later next next' rest h o)

Before-trans :
    (next : ℕ) (s t : Segment) (rest : List Segment)
    → Before next s t
    → All (Before next t) rest
    → All (Before next s) rest
Before-trans next s t [] h a = tt
Before-trans next s t (u ∷ rest) h (b, a) = (omega arith, Before-trans next s t rest h a)

pub insert_at-All {κ} :
    (P : Segment → Type κ) (node : Segment) (segs : List Segment)
    → P node
    → All P segs
    → All P (insert_at node segs)
unfolding insert_at
insert_at-All P node [] p h = (p, tt)
insert_at-All P node (s ∷ rest) p (ps, h) = elim (Bool-cases (ltb s.offset node.offset)) [
  | inl e ↦ rw e (ps, insert_at-All P node rest p h)
  | inr e ↦ rw e (p, (ps, h))
]

-- `insert_segment` keeps the chain ordered.
pub insert_at-Ordered :
    (next : ℕ) (node : Segment) (segs : List Segment)
    → Ordered next segs
    → Ordered next (insert_at node segs)
unfolding insert_at
insert_at-Ordered next node [] o = (tt, tt)
insert_at-Ordered next node (s ∷ rest) (a, o) = elim (Bool-cases (ltb s.offset node.offset)) [
  | inl e ↦
      rw e (
        insert_at-All (Before next s) node rest (ground arith) a,
        insert_at-Ordered next node rest o,
      )
  | inr e ↦ rw e ((ground arith, Before-trans next node s rest (ground arith) a), (a, o))
]

-- Nothing that could be handed on is held back: `out_buf` is full, or the stream waits for a byte
-- that no segment left covers from its start.
pub record Settled (size : ℕ) (c : Consumed) : Type 0 where
  pub ordered : Ordered c.next_offset c.segments
  pub full_or_gap : length c.out ≡ size ⊎ All (λ s. c.next_offset < s.offset) c.segments

gap_behind :
    (next : ℕ) (s : Segment) (rest : List Segment)
    → next < s.offset
    → All (Before next s) rest
    → All (λ t. next < t.offset) rest
gap_behind next s [] h a = tt
gap_behind next s (t ∷ rest) h (b, a) = (omega arith, gap_behind next s rest h a)

pub length-piece :
    (s : Segment) (next n : ℕ) (out : List ℕ)
    → s.offset ≤ next
    → next + n ≤ s.offset + length s.bytes
    → length (out ++ take n (drop (next - s.offset) s.bytes)) ≡ length out + n
length-piece s next n out le h = omega (
  arith,
  length-append out (take n (drop (next - s.offset) s.bytes)),
  length-take n (drop (next - s.offset) s.bytes),
  length-drop (next - s.offset) s.bytes,
)

behind_first :
    (next : ℕ) (s : Segment) (rest : List Segment) → s.offset ≤ next → All (Before next s) rest
behind_first next s [] h = tt
behind_first next s (t ∷ rest) h = (omega arith, behind_first next s rest h)

-- The loop of `consume_segments` keeps the order and settles the stream.
pub consume_loop-Settled :
    (size : ℕ) (segs : List Segment) (next : ℕ) (out : List ℕ)
    → next < 2 ^ 32
    → length out ≤ size
    → All Fits segs
    → Ordered next segs
    → Settled size (consume_loop size segs next out)
consume_loop-Settled size [] next out hn ho f o =
    unfold consume_loop in record { ordered = tt; full_or_gap = inr tt }
consume_loop-Settled size (s ∷ rest) next out hn ho (fs, f) (a, o) =
    elim (consume-Round size s rest next out hn fs) [
      | stop late e ↦
          rw e
            (record { ordered = (a, o); full_or_gap = inr (late, gap_behind next s rest late a) })
      | skip used e ↦ rw e (consume_loop-Settled size rest next out hn ho f o)
      | cut n le full part e ↦ rw e (record {
        ordered = (
          behind_first (next + n)
              (record { offset = next + n; bytes = drop (next + n - s.offset) s.bytes }) rest
              (omega arith),
          Ordered-later next (next + n) rest (omega arith) o,
        );
        full_or_gap = inl (omega (arith, length-piece s next n out le));
      })
      | through n le all pos room e ↦ rw e (
          consume_loop-Settled size rest (next + n) (out ++ take n (drop (next - s.offset) s.bytes))
            (omega arith) (omega (arith, length-piece s next n out le)) f
            (Ordered-later next (next + n) rest (omega arith) o))
    ]
