-- ===== src/Client/Slices.antt =====
-- The packets that carry a piece of a video.
use ott_quic.Common.{
  ℕ, zero, suc, ◌+◌, ◌-◌, ◌≤◌, ◌<◌, ◌^◌, ◌≡◌, ◌⊎◌, refl, ap, sym, ◌∙◌, Bool, true, false,
  append-nil, append_assoc, not, ◌||◌, some, List, [], ◌∷◌, ◌++◌, ltb, leb, ◌==◌, if◌then◌else◌,
  length, length-take, length-drop, take, drop, take-add, u32, Bool-cases, inl, inr, arith,
}
use mathlib.Core.Path.{subst}
use ott_quic.Packet.{Packet, max_payload}
use ott_quic.Engine.State.{Engine, Env, Event}
use ott_quic.Engine.Api.{send_to_connection}
use ott_quic.Client.Chunk.{Chunk, chunk_packet, chunk_loop, send_video_chunk}

-- The packets carry the bytes piece by piece, from an offset and a packet number on; no piece is
-- empty or larger than a payload can be.
abbrev pub IsSlices : ℕ → ℕ → ℕ → ℕ → List Packet → List ℕ → Type 0
IsSlices connection_id stream_id number offset [] bytes = bytes ≡ []
IsSlices connection_id stream_id number offset (p ∷ packets) bytes =
    (piece : List ℕ) × (rest : List ℕ) × (p
      ≡ chunk_packet connection_id stream_id number offset piece)
    × (0 < length piece)
    × (length piece ≤ max_payload)
    × (bytes ≡ piece ++ rest)
    × IsSlices connection_id stream_id (u32 (number + 1)) (offset + length piece) packets rest

min_length :
    (m n : ℕ) (file : List ℕ) → m ≤ n → take n file ≡ take m file ++ take (n - m) (drop m file)
min_length m n file h =
    ap (λ (k : ℕ). take k file) {x = n} {y = m + (n - m)} (omega arith) ∙ take-add m (n - m) file

-- A piece is the front of the file, and its own length cuts it again.
take_own : (m : ℕ) (file : List ℕ) → take (length (take m file)) file ≡ take m file
take_own zero file = refl
take_own (suc m) [] = refl
take_own (suc m) (x ∷ file) = ap (λ t. x ∷ t) (take_own m file)

take_none : (n : ℕ) (file : List ℕ) → length (take n file) ≡ 0 → take n file ≡ []
take_none zero file h = refl
take_none (suc n) [] h = refl
take_none (suc n) (x ∷ file) h = absurd (omega arith)

take_empty : (n : ℕ) (file : List ℕ) → length file ≡ 0 → take n file ≡ []
take_empty n [] h = take_none n [] (omega (arith, length-take n (◌++◌ {A = ℕ} [] [])))
take_empty n (x ∷ file) h = absurd (omega arith)

module _ (env : ℕ → Env) (connection_id stream_id offset size : ℕ) where
  -- Packets sent on their connection one after the other until one cannot be sent, with the answers
  -- of the system in the order of the loop: whether all were sent, the engine, and what it did.
  abbrev pub replay : ℕ → Engine → List Packet → Bool × Engine × List Event
  replay rounds engine [] = (true, engine, [])
  replay zero engine (p ∷ packets) = (false, engine, [])
  replay (suc rounds) engine (p ∷ packets) =
      let r = send_to_connection (env rounds) engine p in
      let later = replay rounds r.1 packets in
      if r.0 then (later.0, later.1, r.2 ++ later.2) else (false, r.1, r.2)

  replay-sent :
      (rounds : ℕ) (engine : Engine) (p : Packet) (packets : List Packet)
      → let r = send_to_connection (env rounds) engine p in
        r.0 ≡ true
        → let later = replay rounds r.1 packets in
          replay (suc rounds) engine (p ∷ packets) ≡ (later.0, later.1, r.2 ++ later.2)
  replay-sent rounds engine p packets e = rw e refl

  replay-failed :
      (rounds : ℕ) (engine : Engine) (p : Packet) (packets : List Packet)
      → let r = send_to_connection (env rounds) engine p in
        r.0 ≡ false → replay (suc rounds) engine (p ∷ packets) ≡ (false, r.1, r.2)
  replay-failed rounds engine p packets e = rw e refl

  -- The result is that of sending the packets, and these carry the next `remaining` bytes, or the
  -- first of them if one could not be sent.
  abbrev pub Sliced : ℕ → Engine → ℕ → ℕ → List ℕ → ℕ → Chunk → Type 0
  Sliced rounds engine number sent file remaining r =
      (replay rounds engine r.packets ≡ (r.ok, r.engine, r.events))
      × (given : List ℕ) × (unsent : List ℕ) × (take remaining file ≡ given ++ unsent)
      × ((r.ok ≡ false) ⊎ (unsent ≡ []))
      × IsSlices connection_id stream_id number (offset + sent) r.packets given

  chunk_loop-Sliced :
      (rounds : ℕ) (engine : Engine) (number : ℕ) (file : List ℕ) (sent remaining : ℕ)
      → length file < rounds
      → offset + sent + length file ≡ size
      → size < 2 ^ 32
      → Sliced rounds engine number sent file remaining (
          chunk_loop env connection_id stream_id offset size rounds engine number file sent
            remaining)
  unfolding chunk_loop
  chunk_loop-Sliced zero engine number file sent remaining enough fits small = absurd (omega arith)
  chunk_loop-Sliced (suc rounds) engine number file sent remaining enough fits small =
      let bound = if ltb max_payload remaining then max_payload else remaining in
      let piece = take bound file in
      let at = u32 (offset + sent) in
      let here : at ≡ offset + sent = omega arith in
      let packet = chunk_packet connection_id stream_id number at piece in
      let placed = ap (λ (k : ℕ). chunk_packet connection_id stream_id number k piece) here in
      let r = send_to_connection (env rounds) engine packet in
      let n = length piece in
      let part : (bound ≤ remaining) × (bound ≤ max_payload) = ground arith in
      let count = length-take bound file in
      let sum : u32 (sent + n) ≡ sent + n = omega arith in
      let split : take remaining file ≡ piece ++ take (remaining - n) (drop n file) =
        min_length n remaining file (omega arith)
        ∙ ap (λ t. t ++ take (remaining - n) (drop n file)) (take_own bound file) in
      let over = (remaining == 0) || (not (ltb (u32 (sent + offset)) (u32 size)) || (n == 0)) in
      elim (Bool-cases over) [
        | inl o ↦
            let nothing : take remaining file ≡ [] = elim (Bool-cases (length file == 0)) [
              | inl z ↦ take_empty remaining file (ground arith)
              | inr z ↦
                  let none_left : remaining ≡ 0 = ground arith in
                  ap (λ (k : ℕ). take k file) none_left
            ] in
            rw (o, chunk_loop) (refl, [], [], nothing, inr refl, refl)
        | inr o ↦
            let some_byte : 0 < n = ground arith in
            elim (Bool-cases r.0) [
              | inr f ↦
                  rw (o, chunk_loop)
                    (rw f (
                      replay-failed rounds engine packet [] f,
                      piece,
                      take (remaining - n) (drop n file),
                      split,
                      inl refl,
                      (piece, [], placed, some_byte, omega arith, sym (append-nil piece), refl),
                    ))
              | inl f ↦ elim (Bool-cases (leb (u32 size) (u32 (u32 (sent + n) + offset)))) [
                | inl e ↦
                    let last : take (remaining - n) (drop n file) ≡ [] =
                      take_empty (remaining - n) (drop n file)
                        (ground (arith, length-drop n file)) in
                    rw (o, chunk_loop)
                      (rw f (
                        rw e (
                          replay-sent rounds engine packet [] f
                              ∙ ap (λ (es : List Event). (true, r.1, es)) (append-nil r.2),
                          piece ++ [],
                          [],
                          split ∙ ap (λ t. piece ++ t) last ∙ sym (append-nil (piece ++ [])),
                          inr refl,
                          (piece, [], placed, some_byte, omega arith, refl, refl),
                        )))
                | inr e ↦
                    let rest =
                      chunk_loop env connection_id stream_id offset size rounds r.1
                        (u32 (number + 1)) (drop n file) (u32 (sent + n)) (remaining - n) in
                    let (same, given, unsent, all, why, slices) =
                      chunk_loop-Sliced rounds r.1 (u32 (number + 1)) (drop n file) (u32 (sent + n))
                        (remaining - n) (omega (arith, length-drop n file))
                        (omega (arith, length-drop n file)) small in
                    let there : offset + u32 (sent + n) ≡ offset + sent + n = omega arith in
                    rw (o, chunk_loop)
                      (rw f (
                        rw e (
                          replay-sent rounds engine packet rest.packets f
                              ∙ ap (λ (x : Bool × Engine × List Event). (x.0, x.1, r.2 ++ x.2))
                                  same,
                          piece ++ given,
                          unsent,
                          split ∙ ap (λ t. piece ++ t) all ∙ sym (append_assoc piece given unsent),
                          why,
                          (
                            piece,
                            given,
                            placed,
                            some_byte,
                            omega arith,
                            refl,
                            subst
                                (λ (k : ℕ).
                                  IsSlices connection_id stream_id (u32 (number + 1)) k rest.packets
                                    given)
                                there slices,
                          ),
                        )))
              ]
            ]
      ]

-- `send_video_chunk` gives the engine packets with consecutive numbers and offsets, one after the
-- other, until one cannot be sent; its result and the engine are those of sending these packets. They
-- carry the bytes of the file from the offset on, as many as were asked for and there are, or the
-- first of these bytes if one could not be sent. The hypotheses: the file is shorter than 2^32
-- bytes, `stat` tells its length, and the offset lies within it.
pub send_video_chunk-Sliced :
    (env : ℕ → Env) (engine : Engine) (connection_id stream_id offset wanted : ℕ) (file : List ℕ)
    (number : ℕ)
    → length file < 2 ^ 32
    → offset < length file
    → let rest = drop offset file in
      Sliced env connection_id stream_id offset
        (length file)
        (suc (length rest))
        engine
        number
        0
        rest
        wanted
        (send_video_chunk env engine connection_id stream_id offset wanted
          (some (length file))
          (some file)
          number)
unfolding send_video_chunk
send_video_chunk-Sliced env engine connection_id stream_id offset wanted file number small within =
    let inside : leb (u32 (length file)) offset ≡ false = ground arith in
    rw (inside, send_video_chunk)
      (chunk_loop-Sliced env connection_id stream_id offset (length file)
        (suc (length (drop offset file))) engine number (drop offset file) 0 wanted (omega arith)
        (omega (arith, length-drop offset file)) small)
