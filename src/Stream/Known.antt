-- ===== src/Stream/Known.antt =====
-- Which bytes a stream has received: those it has handed on, and those its segments hold.
use ott_quic.Common.{
  ℕ, ◌+◌, ◌-◌, ◌^◌, ◌≤◌, ◌<◌, ◌≡◌, refl, Bool, false, ◌&&◌, ◌||◌, List, [], ◌∷◌, ◌++◌, length, take,
  drop, All, ltb, leb, Bool-cases, length-drop, inl, inr, arith,
}
use ott_quic.Stream.{Segment, StreamState, insert_at, consume_loop}
use ott_quic.Stream.Round.{stop, skip, cut, through, consume-Round}
use ott_quic.Stream.Order.{Fits, length-piece}

-- Position `p` is one of the `n` from an offset on.
abbrev pub within : ℕ → ℕ → ℕ → Bool
within offset n p = leb offset p && ltb p (offset + n)

-- A segment of the chain holds the byte at position `p`.
abbrev pub held : List Segment → ℕ → Bool
held [] p = false
held (s ∷ rest) p = within s.offset (length s.bytes) p || held rest p

-- The byte at position `p` has been handed on, or waits in a segment.
abbrev pub known : StreamState → ℕ → Bool
known st p = ltb p st.next_offset || held st.segments p

-- `insert_segment` adds exactly the positions of the new bytes.
pub held-insert_at :
    (node : Segment) (segs : List Segment) (p : ℕ)
    → held (insert_at node segs) p ≡ (within node.offset (length node.bytes) p || held segs p)
unfolding insert_at
held-insert_at node [] p = refl
held-insert_at node (s ∷ rest) p = elim (Bool-cases (ltb s.offset node.offset)) [
  | inl e ↦ rw e (ground (arith, held-insert_at node rest p))
  | inr e ↦ rw e refl
]

-- A byte leaves the chain only when it is handed on.
pub consume_loop-held :
    (size : ℕ) (segs : List Segment) (next : ℕ) (out : List ℕ) (p : ℕ)
    → next < 2 ^ 32
    → length out ≤ size
    → All Fits segs
    → let c = consume_loop size segs next out in
      (ltb p c.next_offset || held c.segments p) ≡ (ltb p next || held segs p)
consume_loop-held size [] next out p hn ho f = unfold consume_loop in refl
consume_loop-held size (s ∷ rest) next out p hn ho (fs, f) =
    elim (consume-Round size s rest next out hn fs) [
      | stop late e ↦ rw e refl
      | skip used e ↦ rw e (ground (arith, consume_loop-held size rest next out p hn ho f))
      | cut n le full part e ↦ rw e (ground (arith, length-drop (next + n - s.offset) s.bytes))
      | through n le all pos room e ↦ rw e (
          ground (
            arith,
            consume_loop-held size rest (next + n) (out ++ take n (drop (next - s.offset) s.bytes))
                p (omega arith) (omega (arith, length-piece s next n out le)) f,
          ))
    ]

-- What lies behind the stream's offset is not known there.
pub gap-held :
    (segs : List Segment) (next : ℕ)
    → All (λ (s : Segment). next < s.offset) segs
    → (ltb next next || held segs next) ≡ false
gap-held [] next h = ground arith
gap-held (s ∷ rest) next (a, h) = ground (arith, gap-held rest next h)
