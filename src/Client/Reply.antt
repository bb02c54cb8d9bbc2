-- ===== src/Client/Reply.antt =====
-- Which requests get the reply that opens a WebSocket.
use ott_quic.Common.{
  ℕ, ◌+◌, ◌≡◌, refl, Bool, true, false, ◌&&◌, none, some, List, ◌++◌, ltb, leb, if◌then◌else◌,
  length, length-append, Bool-cases, Option-cases, inl, inr, arith,
}
use ott_quic.Text.{Text, codes, fits, same_text, same_exact}
use ott_quic.Http.{HttpRequest, get_header}
use ott_quic.WebSocket.Sha1.{sha1_compute, sha1_final, word_bytes}
use ott_quic.WebSocket.Accept.{guid, encode_loop, calculate_accept_key}
use ott_quic.WebSocket.Bounds.{length-encode_loop, base64_encode_lem}
use ott_quic.Client.Handshake.{
  validate_websocket_request, header_with, header_contains_token, handshake_reply, switching,
}

-- The base 64 of the SHA-1 of the key and the GUID.
abbrev pub accept_value : Text → Text
accept_value key = encode_loop (sha1_compute (key ++ guid))

length-sha1_compute : (bytes : List ℕ) → length (sha1_compute bytes) ≡ 20
unfolding sha1_compute sha1_final word_bytes
length-sha1_compute bytes = refl

length-accept_value : (key : Text) → length (accept_value key) ≡ 28
length-accept_value key =
    omega
      (arith, length-encode_loop (sha1_compute (key ++ guid)), length-sha1_compute (key ++ guid))

calculate_accept_key-accept_value :
    (key : Text)
    → calculate_accept_key key 64 ≡ (if ltb (length key) 92 then some (accept_value key) else none)
unfolding calculate_accept_key
calculate_accept_key-accept_value key =
    let encoded = base64_encode_lem (sha1_compute (key ++ guid)) 64 in
    let room : ltb (length (accept_value key)) 64 ≡ true =
      ground (arith, length-accept_value key) in
    elim (Bool-cases (ltb (length key) 92)) [
      | inl e ↦
          let short : leb 128 (length key + length guid) ≡ false = ground arith in
          rw (short, calculate_accept_key) (rw encoded (rw (room, e) refl))
      | inr e ↦
          let long : leb 128 (length key + length guid) ≡ true = ground arith in
          rw (long, calculate_accept_key) (rw e refl)
    ]

and_false : (a b c d : Bool) → (a && (b && (c && (d && false)))) ≡ false
and_false true true true true = refl
and_false true true true false = refl
and_false true true false d = refl
and_false true false c d = refl
and_false false b c d = refl

-- A request without a key is not accepted.
no_key :
    (req : HttpRequest)
    → get_header req.headers (codes "sec-websocket-key") ≡ none
    → validate_websocket_request req ≡ false
unfolding validate_websocket_request
no_key req e =
    rw (e, validate_websocket_request)
      (and_false (same_text req.method (codes "GET"))
        (header_with (λ v. same_text v (codes "websocket"))
          (get_header req.headers (codes "upgrade")))
        (header_with (λ v. header_contains_token v (codes "Upgrade"))
          (get_header req.headers (codes "connection")))
        (header_with (λ v. same_exact v (codes "13"))
          (get_header req.headers (codes "sec-websocket-version"))))

value_of_rfc :
    accept_value (codes "dGhlIHNhbXBsZSBub25jZQ==") ≡ codes "s3pPLMBiTxaQ9kYGzzhZRbK+xOo="
unfolding encode_loop sha1_compute
value_of_rfc = refl

-- A request that `validate_websocket_request` accepts carries a key, and gets the reply 101 with the
-- base 64 of the SHA-1 of the key and the GUID, as the code computes them, exactly if the key has at
-- most 91 characters; else it gets none. For the key of the example of RFC 6455, section 1.3, this
-- value is the one that the RFC gives.
pub handshake_reply-accept_value :
    (req : HttpRequest)
    → validate_websocket_request req ≡ true
    → (key : Text) × (get_header req.headers (codes "sec-websocket-key") ≡ some key)
      × (handshake_reply req
          ≡ (if ltb (length key) 92 then some (switching (accept_value key)) else none))
      × (accept_value (codes "dGhlIHNhbXBsZSBub25jZQ==") ≡ codes "s3pPLMBiTxaQ9kYGzzhZRbK+xOo=")
unfolding validate_websocket_request handshake_reply
handshake_reply-accept_value req valid =
    elim (Option-cases (get_header req.headers (codes "sec-websocket-key"))) [
      | inl e ↦ let refused = no_key req e in absurd (cc)
      | inr (key, e) ↦
          let accepted = calculate_accept_key-accept_value key in
          let room : fits 256 (switching (accept_value key)) ≡ true =
            ground (arith, length-switching (accept_value key), length-accept_value key) in
          elim (Bool-cases (ltb (length key) 92)) [
            | inl s ↦
                (key, e, rw (e, handshake_reply) (rw accepted (rw s (rw room refl))), value_of_rfc)
            | inr s ↦ (key, e, rw (e, handshake_reply) (rw accepted (rw s refl)), value_of_rfc)
          ]
    ]
  where
    length-switching : (accept : Text) → length (switching accept) ≡ length accept + 101
    length-switching accept = omega (arith, length-append accept (codes "\r\n\r\n"))
