-- ===== src/Stream/Reassembly.antt =====
-- The bytes that the reassembly hands on are the sender's.
use ott_quic.Common.{
  ℕ, ◌+◌, ◌-◌, ◌^◌, ◌≤◌, ◌<◌, ◌≡◌, refl, ap, ◌∙◌, sym, List, [], ◌∷◌, ◌++◌, length, take, drop, All,
  length-append, length-drop, append_assoc, append-nil, arith,
}
use ott_quic.Stream.{Segment, Consumed, consume_loop}
use ott_quic.Stream.Round.{stop, skip, cut, through, consume-Round}
use ott_quic.Stream.Slice.{slice, slice_eq, length-slice, slice-append, drop-slice, take-slice}

module _ (src : ℕ → ℕ) where
  -- The segment holds the bytes of `src` at its offset, and ends below 2 ^ 32.
  pub record Agrees (s : Segment) : Type 0 where
    pub bytes_eq : s.bytes ≡ slice src s.offset (length s.bytes)
    pub fits : s.offset + length s.bytes < 2 ^ 32

  -- What a run of the loop from `next` and `out` on has done: `out` is extended by the bytes of
  -- `src` between the old offset and the new one, and what is left still agrees with `src`.
  pub record Advanced (size next : ℕ) (out : List ℕ) (c : Consumed) : Type 0 where
    pub grows : next ≤ c.next_offset
    pub below : c.next_offset < 2 ^ 32
    pub room : length c.out ≤ size
    pub out_eq : c.out ≡ out ++ slice src next (c.next_offset - next)
    pub kept : All Agrees c.segments

  -- A piece of a segment, taken where the stream stands, is a slice of the source.
  piece :
      (s : Segment) (next n : ℕ)
      → Agrees s
      → s.offset ≤ next
      → next + n ≤ s.offset + length s.bytes
      → take n (drop (next - s.offset) s.bytes) ≡ slice src next n
  piece s next n a le h =
      ap (λ t. take n (drop (next - s.offset) t)) a.bytes_eq
      ∙ ap (take n) (drop-slice src (next - s.offset) s.offset (length s.bytes))
      ∙ take-slice src n _ _ (omega arith)
      ∙ slice_eq src _ next n n (omega arith) refl

  -- What is left of a segment agrees with the source too.
  drop-Agrees :
      (s : Segment) (k : ℕ)
      → Agrees s
      → s.offset ≤ k
      → k ≤ s.offset + length s.bytes
      → Agrees (record { offset = k; bytes = drop (k - s.offset) s.bytes })
  drop-Agrees s k a le h = record {
    bytes_eq =
        ap (drop (k - s.offset)) a.bytes_eq
        ∙ drop-slice src (k - s.offset) s.offset (length s.bytes)
        ∙ slice_eq src _ _ _ _ (omega arith) (omega (arith, length-drop (k - s.offset) s.bytes));
    fits = omega (arith, length-drop (k - s.offset) s.bytes);
  }

  -- Two advances, one after the other.
  advance_more :
      (size next n : ℕ) (out : List ℕ) (c : Consumed)
      → Advanced size (next + n) (out ++ slice src next n) c
      → Advanced size next out c
  advance_more size next n out c a = record {
    grows = omega arith;
    below = a.below;
    room = a.room;
    out_eq =
        a.out_eq
        ∙ append_assoc out (slice src next n) _
        ∙ ap (λ t. out ++ t)
            (slice-append src next n (c.next_offset - (next + n))
              ∙ slice_eq src next next _ _ refl (omega arith));
    kept = a.kept;
  }

  -- The loop stops where it stands.
  advance_none :
      (size next : ℕ) (out : List ℕ) (segs : List Segment)
      → next < 2 ^ 32
      → length out ≤ size
      → All Agrees segs
      → Advanced size next out (record { segments = segs; next_offset = next; out = out })
  advance_none size next out segs hn ho h = record {
    grows = omega arith;
    below = hn;
    room = ho;
    out_eq =
        sym (append-nil out)
        ∙ ap (λ t. out ++ t) (slice_eq src next next 0 (next - next) refl (omega arith));
    kept = h;
  }

  -- Handing on `n` bytes of the segment where the stream stands keeps what the loop needs.
  length-out :
      (size next n : ℕ) (out : List ℕ)
      → length out ≤ size
      → n ≤ size - length out
      → length (out ++ slice src next n) ≤ size
  length-out size next n out ho hn =
      omega (arith, length-append out (slice src next n), length-slice src next n)

  pub consume_loop-Advanced :
      (size : ℕ) (segs : List Segment) (next : ℕ) (out : List ℕ)
      → next < 2 ^ 32
      → length out ≤ size
      → All Agrees segs
      → Advanced size next out (consume_loop size segs next out)
  consume_loop-Advanced size [] next out hn ho h =
      unfold consume_loop in advance_none size next out [] hn ho tt
  consume_loop-Advanced size (s ∷ rest) next out hn ho (hs, h) =
      elim (consume-Round size s rest next out hn hs.fits) [
        | stop late e ↦ rw e (advance_none size next out (s ∷ rest) hn ho (hs, h))
        | skip used e ↦ rw e (consume_loop-Advanced size rest next out hn ho h)
        | cut n le full part e ↦
            rw (e, piece s next n hs le (omega arith))
              (advance_more size next n out _ (
                advance_none size (next + n) (out ++ slice src next n) _ (omega (arith, hs.fits))
                  (length-out size next n out ho (omega arith))
                  (drop-Agrees s (next + n) hs (omega arith) (omega arith), h)))
        | through n le all pos room e ↦
            rw (e, piece s next n hs le (omega arith))
              (advance_more size next n out _ (
                consume_loop-Advanced size rest (next + n) (out ++ slice src next n)
                  (omega (arith, hs.fits)) (length-out size next n out ho room) h))
      ]
