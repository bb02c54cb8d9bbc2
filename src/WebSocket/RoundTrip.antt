-- ===== src/WebSocket/RoundTrip.antt =====
-- Reading the frames of RFC 6455, and what `ws_send_frame` writes.
use Prim.Native.Nat.{bit_or, bit_and}
use ott_quic.Common.{
  ℕ, suc, ◌+◌, ◌*◌, ◌/◌, ◌%◌, ◌^◌, ◌≤◌, ◌<◌, ◌≡◌, refl, sym, ap, ◌∙◌, Bool, true, false, not,
  Option, none, some, List, [], ◌∷◌, ◌++◌, ltb, lt→ltb, ◌==◌, if◌then◌else◌, length, take, drop,
  append_assoc, length-append, take-length-append, drop-length-append, u64, Bool-cases, inl, inr,
  arith,
}
use ott_quic.Common.Bits.{low_four, low_seven, top_bit, bit_or_low, bit_xor_twice}
use ott_quic.WebSocket.Io.{Socket, read_exact}
use ott_quic.WebSocket.Stream.{IsStream, read_exact-Reads}
use ott_quic.WebSocket.Frame.{
  Frame, max_frame_payload, mask_at, mask_from, apply_mask, length16, length64, read_length,
  read_mask, read_payload, read_rest, read_header, read_frame,
}

mask_from-mask_from :
    (i : ℕ) (bytes mask : List ℕ) → mask_from i (mask_from i bytes mask) mask ≡ bytes
unfolding mask_from
mask_from-mask_from i [] mask = refl
mask_from-mask_from i (b ∷ bytes) mask =
    rw (bit_xor_twice b (mask_at mask (i % 4)))
      (ap (λ t. b ∷ t) (mask_from-mask_from (i + 1) bytes mask))

-- Masking twice with one key gives the bytes back.
pub apply_mask-apply_mask : (bytes mask : List ℕ) → apply_mask (apply_mask bytes mask) mask ≡ bytes
unfolding apply_mask
apply_mask-apply_mask bytes mask = mask_from-mask_from 0 bytes mask

length-mask_from : (i : ℕ) (bytes mask : List ℕ) → length (mask_from i bytes mask) ≡ length bytes
unfolding mask_from
length-mask_from i [] mask = refl
length-mask_from i (b ∷ bytes) mask = ap suc (length-mask_from (i + 1) bytes mask)

-- The length field of RFC 6455: seven bits, and two or eight bytes more.
abbrev pub length_code : ℕ → ℕ
length_code len = if ltb len 126 then len else if ltb len 65536 then 126 else 127

abbrev pub length_bytes : ℕ → List ℕ
length_bytes len =
    if ltb len 126
    then []
    else if ltb len 65536
    then len / 256 ∷ len % 256 ∷ []
    else 0 ∷ 0 ∷ 0 ∷ 0 ∷ 0 ∷ len / 65536 ∷ len / 256 % 256 ∷ len % 256 ∷ []

-- A masking key, or none.
abbrev pub key_bytes : Option (ℕ × ℕ × ℕ × ℕ) → List ℕ
key_bytes none = []
key_bytes (some (a, b, c, d)) = a ∷ b ∷ c ∷ d ∷ []

abbrev pub is_masked : Option (ℕ × ℕ × ℕ × ℕ) → Bool
is_masked none = false
is_masked (some key) = true

abbrev pub payload_bytes : Option (ℕ × ℕ × ℕ × ℕ) → List ℕ → List ℕ
payload_bytes none payload = payload
payload_bytes (some key) payload = apply_mask payload (key_bytes (some key))

-- A frame of RFC 6455 on the wire.
abbrev pub wire : Bool → ℕ → Option (ℕ × ℕ × ℕ × ℕ) → List ℕ → List ℕ
wire fin opcode key payload =
    ((if fin then 128 else 0) + opcode)
    ∷ ((if is_masked key then 128 else 0) + length_code (length payload))
    ∷ (length_bytes (length payload) ++ (key_bytes key ++ payload_bytes key payload))

length16_lem : (a b : ℕ) → b < 256 → length16 (a ∷ b ∷ []) ≡ a * 256 + b
unfolding length16
length16_lem a b h = bit_or_low 8 a b h

length64_step : (acc b : ℕ) → acc < 2 ^ 56 → b < 256 → bit_or (u64 (acc * 2 ^ 8)) b ≡ acc * 256 + b
length64_step acc b h lt =
    ap (λ (t : ℕ). bit_or t b) {x = u64 (acc * 2 ^ 8)} {y = acc * 2 ^ 8} (omega arith)
    ∙ bit_or_low 8 acc b lt

-- The three bytes that can differ from 0.
length64_lem :
    (len : ℕ)
    → len ≤ 65536
    → length64 0 (0 ∷ 0 ∷ 0 ∷ 0 ∷ 0 ∷ len / 65536 ∷ len / 256 % 256 ∷ len % 256 ∷ []) ≡ len
unfolding length64
length64_lem len h = rw (length64_step 0 (len / 65536) (omega arith) (omega arith)) (
    rw (length64_step (0 * 256 + len / 65536) (len / 256 % 256) (omega arith) (omega arith))
      (length64_step _ (len % 256) (omega arith) (omega arith) ∙ omega arith))

-- What `ws_read_frame` has in `mask_key`.
abbrev pub mask_of : Option (ℕ × ℕ × ℕ × ℕ) → List ℕ
mask_of none = 0 ∷ 0 ∷ 0 ∷ 0 ∷ []
mask_of (some key) = key_bytes (some key)

-- A frame as `ws_read_frame` returns it.
abbrev pub frame : Bool → ℕ → List ℕ → Frame
frame fin opcode payload = record {
  opcode = opcode;
  fin = fin;
  payload_len = length payload;
  payload = payload;
}

length-payload_bytes :
    (key : Option (ℕ × ℕ × ℕ × ℕ)) (payload : List ℕ)
    → length (payload_bytes key payload) ≡ length payload
unfolding apply_mask
length-payload_bytes none payload = refl
length-payload_bytes (some key) payload = length-mask_from 0 payload _

-- The fields of the two header bytes.
fin_field :
    (fin : Bool) (opcode : ℕ)
    → opcode < 16
    → not (bit_and ((if fin then 128 else 0) + opcode) 0x80 == 0) ≡ fin
fin_field true opcode h = rw (top_bit (128 + opcode) (omega arith)) (ground arith)
fin_field false opcode h = rw (top_bit (0 + opcode) (omega arith)) (ground arith)

opcode_field :
    (fin : Bool) (opcode : ℕ)
    → opcode < 16
    → bit_and ((if fin then 128 else 0) + opcode) 0x0F ≡ opcode
opcode_field true opcode h = low_four (128 + opcode) (omega arith) ∙ omega arith
opcode_field false opcode h = low_four (0 + opcode) (omega arith) ∙ omega arith

mask_field :
    (masked : Bool) (code : ℕ)
    → code < 128
    → not (bit_and ((if masked then 128 else 0) + code) 0x80 == 0) ≡ masked
mask_field true code h = rw (top_bit (128 + code) (omega arith)) (ground arith)
mask_field false code h = rw (top_bit (0 + code) (omega arith)) (ground arith)

code_field :
    (masked : Bool) (code : ℕ)
    → code < 128
    → bit_and ((if masked then 128 else 0) + code) 0x7F ≡ code
code_field true code h = low_seven (128 + code) (omega arith) ∙ omega arith
code_field false code h = low_seven (0 + code) (omega arith) ∙ omega arith

length_code-lt : (len : ℕ) → length_code len < 128
length_code-lt len = ground arith

module _ (socket : Socket) (stream : IsStream socket) where
  -- The bytes in front are read.
  read_exact-append :
      (conn : socket.Conn) (xs rest : List ℕ)
      → stream.incoming conn ≡ xs ++ rest
      → (conn' : socket.Conn) × (read_exact socket conn (length xs) ≡ some (xs, conn'))
        × (stream.incoming conn' ≡ rest)
  read_exact-append conn xs rest e =
      let (conn', r, i) =
        read_exact-Reads socket stream conn (length xs)
          (omega (arith, ap length e, length-append xs rest)) in
      (
        conn',
        r
            ∙ ap (λ (t : List ℕ). some (t, conn'))
                (ap (λ (t : List ℕ). take (length xs) t) e ∙ take-length-append xs rest),
        i ∙ ap (λ (t : List ℕ). drop (length xs) t) e ∙ drop-length-append xs rest,
      )

  read_length-short :
      (conn : socket.Conn) (len : ℕ) → len < 126 → read_length socket conn len ≡ some (len, conn)
  unfolding read_length
  read_length-short conn len lt =
      rw (below 126 (omega arith), read_length) (rw (below 127 (omega arith)) refl)
    where
      below : (k : ℕ) → 126 ≤ k → (len == k) ≡ false
      below k h = ground arith

  -- What `read_length` makes of the extended length `xs`.
  read_length-extended :
      (conn : socket.Conn) (code len : ℕ) (xs rest : List ℕ)
      → stream.incoming conn ≡ xs ++ rest
      → ((conn' : socket.Conn)
          → read_exact socket conn (length xs) ≡ some (xs, conn')
          → read_length socket conn code ≡ some (len, conn'))
      → (conn' : socket.Conn) × (read_length socket conn code ≡ some (len, conn'))
        × (stream.incoming conn' ≡ rest)
  read_length-extended conn code len xs rest e f =
      let (conn', r, i) = read_exact-append conn xs rest e in (conn', f conn' r, i)

  read_length-wire :
      (conn : socket.Conn) (len : ℕ) (rest : List ℕ)
      → len ≤ 65536
      → stream.incoming conn ≡ length_bytes len ++ rest
      → (conn' : socket.Conn) × (read_length socket conn (length_code len) ≡ some (len, conn'))
        × (stream.incoming conn' ≡ rest)
  unfolding read_length
  read_length-wire conn len rest h e = elim (Bool-cases (ltb len 126)) [
    | inl s ↦ rw s (conn, read_length-short conn len (ground arith), e ∙ rw s refl)
    | inr s ↦ elim (Bool-cases (ltb len 65536)) [
      | inl m ↦ rw s (
          rw m (
            read_length-extended conn 126 len (len / 256 ∷ len % 256 ∷ []) rest
              (e ∙ rw s (rw m refl))
              (λ conn' r.
                rw (r, read_length)
                  (ap (λ (t : ℕ). some (t, conn'))
                    (length16_lem (len / 256) (len % 256) (omega arith) ∙ omega arith)))))
      | inr m ↦ rw s (
          rw m (
            read_length-extended conn 127 len
              (0 ∷ 0 ∷ 0 ∷ 0 ∷ 0 ∷ len / 65536 ∷ len / 256 % 256 ∷ len % 256 ∷ []) rest
              (e ∙ rw s (rw m refl))
              (λ conn' r.
                rw (r, read_length) (ap (λ (t : ℕ). some (t, conn')) (length64_lem len h)))))
    ]
  ]

  read_mask-wire :
      (conn : socket.Conn) (key : Option (ℕ × ℕ × ℕ × ℕ)) (rest : List ℕ)
      → stream.incoming conn ≡ key_bytes key ++ rest
      → (conn' : socket.Conn) × (read_mask socket conn (is_masked key) ≡ some (mask_of key, conn'))
        × (stream.incoming conn' ≡ rest)
  unfolding read_mask
  read_mask-wire conn none rest e = (conn, refl, e)
  read_mask-wire conn (some key) rest e = read_exact-append conn (key_bytes (some key)) rest e

  read_payload-nonempty :
      (conn conn' : socket.Conn) (key : Option (ℕ × ℕ × ℕ × ℕ)) (b : ℕ) (payload : List ℕ)
      → read_exact socket conn (suc (length payload))
        ≡ some (payload_bytes key (b ∷ payload), conn')
      → read_payload socket true conn (suc (length payload)) (is_masked key) (mask_of key)
        ≡ some (b ∷ payload, conn')
  unfolding read_payload
  read_payload-nonempty conn conn' none b payload r =
      rw (lt→ltb 0 (suc (length payload)) (omega arith), read_payload) (rw r refl)
  read_payload-nonempty conn conn' (some key) b payload r =
      rw (lt→ltb 0 (suc (length payload)) (omega arith), read_payload)
        (rw r (
          ap (λ (t : List ℕ). some (t, conn'))
            (apply_mask-apply_mask (b ∷ payload) (key_bytes (some key)))))

  read_payload-wire :
      (conn : socket.Conn) (key : Option (ℕ × ℕ × ℕ × ℕ)) (payload rest : List ℕ)
      → stream.incoming conn ≡ payload_bytes key payload ++ rest
      → (conn' : socket.Conn) × (read_payload socket true conn
            (length payload)
            (is_masked key)
            (mask_of key)
          ≡ some (payload, conn'))
        × (stream.incoming conn' ≡ rest)
  unfolding read_payload apply_mask mask_from
  read_payload-wire conn none [] rest e = (conn, refl, e)
  read_payload-wire conn (some key) [] rest e = (conn, refl, e)
  read_payload-wire conn key (b ∷ payload) rest e =
      let (conn', r, i) = read_exact-append conn (payload_bytes key (b ∷ payload)) rest e in
      (
        conn',
        read_payload-nonempty conn conn' key b payload (
            ap (λ (n : ℕ). read_exact socket conn n) (sym (length-payload_bytes key (b ∷ payload)))
            ∙ r),
        i,
      )

  -- From the length on.
  read_rest-wire :
      (conn : socket.Conn) (fin : Bool) (opcode : ℕ) (key : Option (ℕ × ℕ × ℕ × ℕ))
      (payload rest : List ℕ)
      → length payload ≤ max_frame_payload
      → stream.incoming conn ≡ key_bytes key ++ (payload_bytes key payload ++ rest)
      → (conn' : socket.Conn) × (read_rest socket true conn opcode fin
            (is_masked key)
            (length payload)
          ≡ some (frame fin opcode payload, conn'))
        × (stream.incoming conn' ≡ rest)
  unfolding read_rest
  read_rest-wire conn fin opcode key payload rest h e =
      let (conn1, r1, i1) = read_mask-wire conn key _ e in
      let (conn2, r2, i2) = read_payload-wire conn1 key payload rest i1 in
      let fits : ltb max_frame_payload (length payload) ≡ false = ground arith in
      (conn2, rw (fits, read_rest) (rw r1 (rw r2 refl)), i2)

  read_header-fields :
      (conn conn' : socket.Conn) (a b code len opcode : ℕ) (fin masked : Bool)
      (result : Option (Frame × socket.Conn))
      → bit_and b 0x7F ≡ code
      → bit_and a 0x0F ≡ opcode
      → not (bit_and a 0x80 == 0) ≡ fin
      → not (bit_and b 0x80 == 0) ≡ masked
      → read_length socket conn code ≡ some (len, conn')
      → read_rest socket true conn' opcode fin masked len ≡ result
      → read_header socket true (a ∷ b ∷ []) conn ≡ result
  unfolding read_header
  read_header-fields conn conn' a b code len opcode fin masked result c o f m r rest =
      rw (c, read_header)
        (rw r (
          ap
            (λ (t : ℕ).
              read_rest socket true conn' t (not (bit_and a 0x80 == 0)) (not (bit_and b 0x80 == 0))
                len)
            o
          ∙ ap (λ (t : Bool). read_rest socket true conn' opcode t (not (bit_and b 0x80 == 0)) len)
              f
          ∙ ap (λ (t : Bool). read_rest socket true conn' opcode fin t len) m
          ∙ rest))

  -- `ws_read_frame` reads every frame of RFC 6455 whose payload has at most 65536 bytes, masked or
  -- not, final or not, in whatever pieces it arrives: it returns the payload without the mask, and
  -- leaves what follows the frame. The hypotheses: the socket is a stream, `malloc` succeeds, and
  -- the opcode has four bits.
  pub read_frame-wire :
      (conn : socket.Conn) (fin : Bool) (opcode : ℕ) (key : Option (ℕ × ℕ × ℕ × ℕ))
      (payload rest : List ℕ)
      → opcode < 16
      → length payload ≤ max_frame_payload
      → stream.incoming conn ≡ wire fin opcode key payload ++ rest
      → (conn' : socket.Conn) × (read_frame socket true conn
          ≡ some (frame fin opcode payload, conn'))
        × (stream.incoming conn' ≡ rest)
  unfolding read_frame
  read_frame-wire conn fin opcode key payload rest lt h e =
      let len = length payload in
      let a = (if fin then 128 else 0) + opcode in
      let b = (if is_masked key then 128 else 0) + length_code len in
      let (conn1, r1, i1) = read_exact-append conn (a ∷ b ∷ []) _ e in
      let (conn2, r2, i2) =
        read_length-wire conn1 len (key_bytes key ++ (payload_bytes key payload ++ rest)) h (
          i1
          ∙ append_assoc (length_bytes len) (key_bytes key ++ payload_bytes key payload) rest
          ∙ ap (λ (t : List ℕ). length_bytes len ++ t)
              (append_assoc (key_bytes key) (payload_bytes key payload) rest)) in
      let (conn3, r3, i3) = read_rest-wire conn2 fin opcode key payload rest h i2 in
      (
        conn3,
        rw (r1, read_frame)
            (read_header-fields conn1 conn2 a b (length_code len) len opcode fin (is_masked key) _
              (code_field (is_masked key) (length_code len) (length_code-lt len))
              (opcode_field fin opcode lt) (fin_field fin opcode lt)
              (mask_field (is_masked key) (length_code len) (length_code-lt len)) r2 r3),
        i3,
      )
