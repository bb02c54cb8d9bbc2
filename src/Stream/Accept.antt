-- ===== src/Stream/Accept.antt =====
-- Inserting and consuming on one stream whose segments agree with what the peer sends.
use ott_quic.Common.{
  ℕ, ◌+◌, ◌-◌, ◌^◌, ◌≤◌, ◌<◌, ◌≡◌, ◌⊎◌, refl, ap, ◌∙◌, Bool, true, false, List, [], ◌∷◌, length,
  All, ◌||◌, ◌&&◌, inl, inr, arith,
}
use ott_quic.Stream.{
  Segment, StreamState, consume_loop, consume_segments, insert_segment, insert_at, accept,
}
use ott_quic.Stream.Slice.{slice, length-slice}
use ott_quic.Stream.Reassembly.{Agrees, Advanced, consume_loop-Advanced}
use ott_quic.Stream.Order.{
  Fits, Ordered, Settled, insert_at-All, insert_at-Ordered, consume_loop-Settled,
}
use ott_quic.Stream.Known.{within, known, held-insert_at, consume_loop-held, gap-held}

-- A stream that reassembles `src`.
pub record StreamInv (src : ℕ → ℕ) (st : StreamState) : Type 0 where
  pub agrees : All (Agrees src) st.segments
  pub ordered : Ordered st.next_offset st.segments
  pub below : st.next_offset < 2 ^ 32

-- What `accept` does with bytes of `src`: it fails exactly if `malloc` does. The bytes known
-- afterwards are those known before, and after a success the new ones too. It hands on the next
-- bytes of `src`, and after a success `out_buf` is full or the next byte is not known.
pub record Accepted (src : ℕ → ℕ) (size : ℕ) (st : StreamState) (alloc : Bool) (offset n : ℕ)
    (r : Bool × StreamState × List ℕ) : Type 0 where
  pub inv : StreamInv src r.1
  pub rc_eq : r.0 ≡ alloc
  pub known_eq : (p : ℕ) → known r.1 p ≡ (known st p || (alloc && within offset n p))
  pub out_eq : r.2 ≡ slice src st.next_offset (length r.2)
  pub next_eq : r.1.next_offset ≡ st.next_offset + length r.2
  pub room : length r.2 ≤ size
  pub full_or_gap : (alloc ≡ false) ⊎ (length r.2 ≡ size) ⊎ (known r.1 r.1.next_offset ≡ false)
  pub same_id : r.1.stream_id ≡ st.stream_id
  pub same_use : r.1.in_use ≡ st.in_use

Agrees-Fits : (src : ℕ → ℕ) (segs : List Segment) → All (Agrees src) segs → All Fits segs
Agrees-Fits src [] h = tt
Agrees-Fits src (s ∷ rest) (a, h) = (a.fits, Agrees-Fits src rest h)

module _ (src : ℕ → ℕ) (size : ℕ) (st : StreamState) (inv : StreamInv src st) where
  -- One run of the loop over the chain with a new segment.
  consumed_lem :
      (node : Segment)
      → Agrees src node
      → let r = consume_segments size (record st { segments = insert_at node st.segments }) in
        Accepted src size st true node.offset (length node.bytes) (true, r.0, r.1)
  unfolding consume_segments
  consumed_lem node new =
      let segs = insert_at node st.segments in
      let h : All (Agrees src) segs = insert_at-All (Agrees src) node st.segments new inv.agrees in
      let o : Ordered st.next_offset segs =
        insert_at-Ordered st.next_offset node st.segments inv.ordered in
      let fit : All Fits segs = Agrees-Fits src segs h in
      let c = consume_loop size segs st.next_offset [] in
      let a : Advanced src size st.next_offset [] c =
        consume_loop-Advanced src size segs st.next_offset [] inv.below (omega arith) h in
      let s : Settled size c =
        consume_loop-Settled size segs st.next_offset [] inv.below (omega arith) fit o in
      let n : length c.out ≡ c.next_offset - st.next_offset =
        ap length a.out_eq ∙ length-slice src st.next_offset _ in
      record {
        inv = record { agrees = a.kept; ordered = s.ordered; below = a.below };
        rc_eq = refl;
        known_eq = λ p.
            let all = consume_loop-held size segs st.next_offset [] p inv.below (omega arith) fit in
            let more = held-insert_at node st.segments p in ground (arith, all, more);
        out_eq = rw n a.out_eq;
        next_eq = omega (arith, a.grows);
        room = a.room;
        full_or_gap = inr (elim s.full_or_gap [
          | inl full ↦ inl full
          | inr gap ↦ inr (gap-held c.segments c.next_offset gap)
        ]);
        same_id = refl;
        same_use = refl;
      }

  -- `accept` fails exactly if `malloc` does, and then changes nothing. The bytes it knows
  -- afterwards, those handed on and those that wait in a segment, are those it knew before and,
  -- after a success, exactly the new ones. It hands on the next bytes of the source, and after a
  -- success all that is ready: `out_buf` is full, or the next byte is not known. The hypotheses:
  -- the stream reassembles the source, the new bytes are the source's, and they end below 2^32.
  pub accept-Accepted :
      (alloc : Bool) (offset : ℕ) (bytes : List ℕ)
      → bytes ≡ slice src offset (length bytes)
      → offset + length bytes < 2 ^ 32
      → Accepted src size st alloc offset (length bytes) (accept alloc st offset bytes size)
  unfolding accept insert_segment
  accept-Accepted true offset bytes e f =
      consumed_lem (record { offset = offset; bytes = bytes }) (record { bytes_eq = e; fits = f })
  accept-Accepted false offset bytes e f = record {
    inv = inv;
    rc_eq = refl;
    known_eq = λ p. ground arith;
    out_eq = refl;
    next_eq = omega arith;
    room = omega arith;
    full_or_gap = inl refl;
    same_id = refl;
    same_use = refl;
  }
