-- ===== src/Command/Tests.antt =====
-- Commands at concrete inputs.
use ott_quic.Common.{◌≡◌, refl, some, [], ◌∷◌, arith}
use ott_quic.Text.{Text, before, after}
use ott_quic.Session.{hex}
use ott_quic.Session.Bounds.{Fits}
use ott_quic.Command.{string_field, hex_to_bytes, key_type, parse_command, command, ping}
use ott_quic.Command.Bounds.{string_field-Fits, hex_to_bytes-hex}

-- {"type": "ping"}
abbrev ping_text : Text
ping_text =
    123 ∷ 34 ∷ 116 ∷ 121 ∷ 112 ∷ 101 ∷ 34 ∷ 58 ∷ 32 ∷ 34 ∷ 112 ∷ 105 ∷ 110 ∷ 103 ∷ 34 ∷ 125 ∷ []

parse_ping : parse_command ping_text ≡ some (command ping)
unfolding parse_command after before
parse_ping = refl

-- "1z" is read as the byte 1.
hex_to_bytes_lax : hex_to_bytes (49 ∷ 122 ∷ []) 4 ≡ some (1 ∷ [])
unfolding hex_to_bytes
hex_to_bytes_lax = refl

string_field-Fits_example : Fits 3 (string_field ping_text key_type 3)
string_field-Fits_example = string_field-Fits ping_text key_type 3

hex_to_bytes-hex_example : hex_to_bytes (hex (0 ∷ 31 ∷ 255 ∷ [])) 3 ≡ some (0 ∷ 31 ∷ 255 ∷ [])
hex_to_bytes-hex_example =
    hex_to_bytes-hex (0 ∷ 31 ∷ 255 ∷ []) 3 (omega arith, (omega arith, (omega arith, tt)))
      (omega arith)
