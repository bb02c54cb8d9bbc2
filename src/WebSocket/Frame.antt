-- ===== src/WebSocket/Frame.antt =====
-- `ws_read_frame`, `ws_send_frame` and the mask.
use Prim.Native.Nat.{bit_or, bit_and, bit_xor}
use ott_quic.Common.{
  ℕ, zero, suc, ◌+◌, ◌*◌, ◌/◌, ◌%◌, ◌^◌, Bool, true, false, not, Option, none, some, List, [], ◌∷◌,
  ltb, leb, ◌==◌, if◌then◌else◌, length, get_elem?, u8, u64,
}
use ott_quic.WebSocket.Io.{Socket, read_exact, write_all}

abbrev pub max_frame_payload : ℕ
max_frame_payload = 64 * 1024

-- `ws_frame_t`; no payload, NULL in the source, is the empty list.
pub record Frame : Type 0 where
  pub opcode : ℕ
  pub fin : Bool
  pub payload_len : ℕ
  pub payload : List ℕ

-- `mask[i]` of the four bytes.
abbrev pub mask_at : List ℕ → ℕ → ℕ
mask_at mask i = elim (get_elem? mask i) [ none ↦ 0 | some b ↦ b ]

unfoldable pub mask_from : ℕ → List ℕ → List ℕ → List ℕ
mask_from i [] mask = []
mask_from i (b ∷ payload) mask = bit_xor b (mask_at mask (i % 4)) ∷ mask_from (i + 1) payload mask

unfoldable pub apply_mask : List ℕ → List ℕ → List ℕ
unfolding mask_from
apply_mask payload mask = mask_from 0 payload mask

-- The two bytes of a short extended length.
unfoldable pub length16 : List ℕ → ℕ
length16 (a ∷ b ∷ []) = bit_or (a * 2 ^ 8) b
length16 _ = 0

-- The loop over the eight bytes of a long extended length.
unfoldable pub length64 : ℕ → List ℕ → ℕ
length64 len [] = len
length64 len (b ∷ bs) = length64 (bit_or (u64 (len * 2 ^ 8)) b) bs

module _ (socket : Socket) where
  -- The payload's length, from the seven bits of the second byte.
  unfoldable pub read_length : socket.Conn → ℕ → Option (ℕ × socket.Conn)
  unfolding length16 length64
  read_length conn code =
      if code == 126
      then elim (read_exact socket conn 2) [
        | none ↦ none
        | some (extended, conn') ↦ some (length16 extended, conn')
      ]
      else if code == 127
      then elim (read_exact socket conn 8) [
        | none ↦ none
        | some (extended, conn') ↦ some (length64 0 extended, conn')
      ]
      else some (code, conn)

  unfoldable pub read_mask : socket.Conn → Bool → Option (List ℕ × socket.Conn)
  read_mask conn masked =
      if masked then read_exact socket conn 4 else some (0 ∷ 0 ∷ 0 ∷ 0 ∷ [], conn)

  -- The payload, allocated if it is not empty. The argument `alloc` is whether `malloc` succeeds.
  unfoldable pub read_payload :
      Bool → socket.Conn → ℕ → Bool → List ℕ → Option (List ℕ × socket.Conn)
  unfolding apply_mask
  read_payload alloc conn len masked mask =
      if not (ltb 0 len)
      then some ([], conn)
      else if not alloc
      then none
      else elim (read_exact socket conn len) [
        | none ↦ none
        | some (payload, conn') ↦ some (if masked then apply_mask payload mask else payload, conn')
      ]

  -- From the length on.
  unfoldable pub read_rest : Bool → socket.Conn → ℕ → Bool → Bool → ℕ → Option (Frame × socket.Conn)
  unfolding read_mask read_payload
  read_rest alloc conn opcode fin masked len =
      if ltb max_frame_payload len then none else elim (read_mask conn masked) [
        | none ↦ none
        | some (mask, conn1) ↦ elim (read_payload alloc conn1 len masked mask) [
          | none ↦ none
          | some (payload, conn2) ↦
              some
                (record { opcode = opcode; fin = fin; payload_len = len; payload = payload }, conn2)
        ]
      ]

  -- The two bytes of the header, then the rest.
  unfoldable pub read_header : Bool → List ℕ → socket.Conn → Option (Frame × socket.Conn)
  unfolding read_length read_rest
  read_header alloc (a ∷ b ∷ []) conn = elim (read_length conn (bit_and b 0x7F)) [
    | none ↦ none
    | some (len, conn') ↦
        read_rest alloc conn' (bit_and a 0x0F) (not (bit_and a 0x80 == 0))
          (not (bit_and b 0x80 == 0)) len
  ]
  read_header alloc _ conn = none

  unfoldable pub read_frame : Bool → socket.Conn → Option (Frame × socket.Conn)
  unfolding read_header
  read_frame alloc conn = elim (read_exact socket conn 2) [
    | none ↦ none
    | some (header, conn') ↦ read_header alloc header conn'
  ]

-- The eight bytes of the loop over `i`, highest first, from the shift `8 * n` down.
unfoldable pub shifted : ℕ → ℕ → List ℕ
shifted zero len = []
shifted (suc n) len = bit_and (len / 2 ^ (8 * n)) 0xFF ∷ shifted n len

unfoldable pub send_header : ℕ → ℕ → List ℕ
unfolding shifted
send_header opcode len =
    bit_or 0x80 (bit_and opcode 0x0F)
    ∷ (if leb len 125
        then u8 len ∷ []
        else if leb len 0xFFFF
        then 126 ∷ bit_and (len / 2 ^ 8) 0xFF ∷ bit_and len 0xFF ∷ []
        else 127 ∷ shifted 8 len)

-- Whether the frame was sent, and the connection.
unfoldable pub send_frame : (socket : Socket) → socket.Conn → ℕ → List ℕ → Bool × socket.Conn
unfolding send_header
send_frame socket conn opcode payload =
    let (ok, conn1) = write_all socket conn (send_header opcode (length payload)) in
    if not ok
    then (false, conn1)
    else if ltb 0 (length payload)
    then write_all socket conn1 payload
    else (true, conn1)
