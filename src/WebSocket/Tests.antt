-- ===== src/WebSocket/Tests.antt =====
-- Frames at concrete inputs.
use ott_quic.Common.{
  ℕ, ◌≡◌, ◌⊎◌, refl, sym, true, false, none, some, List, [], ◌∷◌, ◌++◌, length, ltb, if◌then◌else◌,
  arith,
}
use ott_quic.Samples.Wire.{byte_wise, byte_wise_stream}
use ott_quic.WebSocket.Stream.{Reads, Writes, read_exact-Reads, write_all-Writes}
use ott_quic.WebSocket.Io.{read_exact, write_all, write_loop, io_write}
use ott_quic.WebSocket.Frame.{apply_mask, mask_from, send_header, read_frame, send_frame}
use ott_quic.WebSocket.RoundTrip.{wire, frame, read_frame-wire, apply_mask-apply_mask}
use ott_quic.WebSocket.Sha1.{sha1_compute}
use ott_quic.WebSocket.Accept.{calculate_accept_key, base64_encode, encode_loop}
use ott_quic.WebSocket.Bounds.{base64_encode_lem}
use ott_quic.WebSocket.Digest.{Hashed, sha1_compute-Hashed}
use ott_quic.WebSocket.Sent.{send_frame-wire}

-- The masked text frame "Hello" of RFC 6455, section 5.7, and one byte that follows it.
abbrev hello : List ℕ
hello = 0x81 ∷ 0x85 ∷ 0x37 ∷ 0xfa ∷ 0x21 ∷ 0x3d ∷ 0x7f ∷ 0x9f ∷ 0x4d ∷ 0x51 ∷ 0x58 ∷ 0x88 ∷ []

abbrev hello_text : List ℕ
hello_text = 0x48 ∷ 0x65 ∷ 0x6c ∷ 0x6c ∷ 0x6f ∷ []

abbrev hello_key : ℕ × ℕ × ℕ × ℕ
hello_key = (0x37, 0xfa, 0x21, 0x3d)

hello_bytes : wire true 1 (some hello_key) hello_text ++ (0x88 ∷ []) ≡ hello
unfolding apply_mask mask_from
hello_bytes = refl

read_frame-wire_example :
    (conn' : List ℕ × List ℕ) × (read_frame byte_wise true (hello, [])
      ≡ some (frame true 1 hello_text, conn'))
    × (conn'.0 ≡ 0x88 ∷ [])
read_frame-wire_example =
    read_frame-wire byte_wise byte_wise_stream (hello, []) true 1 (some hello_key) hello_text
      (0x88 ∷ []) (omega arith) (omega arith) (sym hello_bytes)

send_frame-wire_example :
    ((send_frame byte_wise ([], []) 1 hello_text).0 ≡ false)
    ⊎ ((send_frame byte_wise ([], []) 1 hello_text).1.1 ≡ 0x81 ∷ 5 ∷ hello_text)
send_frame-wire_example =
    send_frame-wire byte_wise byte_wise_stream ([], []) 1 hello_text (omega arith) (omega arith)

apply_mask-apply_mask_example :
    apply_mask (apply_mask hello_text (1 ∷ 2 ∷ 3 ∷ 4 ∷ [])) (1 ∷ 2 ∷ 3 ∷ 4 ∷ []) ≡ hello_text
apply_mask-apply_mask_example = apply_mask-apply_mask hello_text (1 ∷ 2 ∷ 3 ∷ 4 ∷ [])

read_exact-Reads_example :
    Reads byte_wise byte_wise_stream (hello, []) 4 (read_exact byte_wise (hello, []) 4)
read_exact-Reads_example = read_exact-Reads byte_wise byte_wise_stream (hello, []) 4 (omega arith)

write_all-Writes_example :
    Writes byte_wise byte_wise_stream ([], []) hello (write_all byte_wise ([], []) hello)
write_all-Writes_example = write_all-Writes byte_wise byte_wise_stream ([], []) hello

-- The send succeeds here.
send_frame_succeeds : (send_frame byte_wise ([], []) 1 hello_text).0 ≡ true
unfolding send_frame write_all write_loop io_write send_header
send_frame_succeeds = refl

-- The key and the answer of RFC 6455, section 1.3: "dGhlIHNhbXBsZSBub25jZQ==" gives
-- "s3pPLMBiTxaQ9kYGzzhZRbK+xOo=".
accept_key_of_rfc :
    calculate_accept_key
      (100 ∷ 71 ∷ 104 ∷ 108 ∷ 73 ∷ 72 ∷ 78 ∷ 104 ∷ 98 ∷ 88 ∷ 66 ∷ 115 ∷ 90 ∷ 83 ∷ 66 ∷ 117 ∷ 98 ∷ 50
        ∷ 53 ∷ 106 ∷ 90 ∷ 81 ∷ 61 ∷ 61 ∷ [])
      64
    ≡ some (
        115 ∷ 51 ∷ 112 ∷ 80 ∷ 76 ∷ 77 ∷ 66 ∷ 105 ∷ 84 ∷ 120 ∷ 97 ∷ 81 ∷ 57 ∷ 107 ∷ 89 ∷ 71 ∷ 122
        ∷ 122 ∷ 104 ∷ 90 ∷ 82 ∷ 98 ∷ 75 ∷ 43 ∷ 120 ∷ 79 ∷ 111 ∷ 61 ∷ [])
unfolding calculate_accept_key base64_encode sha1_compute
accept_key_of_rfc = refl

sha1_compute-Hashed_example : Hashed hello (sha1_compute hello)
sha1_compute-Hashed_example = sha1_compute-Hashed hello

base64_encode_lem_example :
    base64_encode hello_text 9
    ≡ (if ltb (length (encode_loop hello_text)) 9 then some (encode_loop hello_text) else none)
base64_encode_lem_example = base64_encode_lem hello_text 9
