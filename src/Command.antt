-- ===== src/Command.antt =====
-- src/server/websocket.c: the fields of a command's JSON text, and `parse_command`. A text has no NUL.
pub mod Bounds
mod Tests
use ott_quic.Common.{
  ℕ, zero, suc, ◌+◌, ◌-◌, ◌*◌, ◌/◌, ◌%◌, ◌^◌, Bool, true, false, ◌&&◌, ◌||◌, not, Option, none,
  some, List, [], ◌∷◌, ◌++◌, ltb, leb, ◌==◌, if◌then◌else◌, length, take, u8, u32,
}
use ott_quic.Packet.{max_payload}
use ott_quic.Text.{
  Text, codes, without, after_text, before, after, is_space, is_digit, signed_decimal, as_uint64,
  as_int, same_exact,
}

unfoldable pub skip_spaces : Text → Text
skip_spaces [] = []
skip_spaces (c ∷ text) = let later = skip_spaces text in if is_space c then later else c ∷ text

-- The keys are constants that fit into the buffer of the pattern; 34 is the quotation mark, 58 `:`.
unfoldable pub find_value : Text → Text → Option Text
unfolding after_text skip_spaces
find_value json key = elim (after_text (34 ∷ (key ++ (34 ∷ []))) json) [
  | none ↦ none
  | some rest ↦ elim (after 58 rest) [ none ↦ none | some value ↦ some (skip_spaces value) ]
]

-- The text between the quotation marks, cut to the buffer.
unfoldable pub quoted : Text → ℕ → Option Text
quoted [] out_size = none
quoted (c ∷ value) out_size =
    if c == 34
    then elim (after 34 value) [
      | none ↦ none
      | some _ ↦
          let text = before 34 value in
          some (if leb out_size (length text) then take (out_size - 1) text else text)
    ]
    else none

unfoldable pub string_field : Text → Text → ℕ → Option Text
unfolding find_value quoted
string_field json key out_size =
    if out_size == 0
    then none
    else elim (find_value json key) [ none ↦ none | some value ↦ quoted value out_size ]

unfoldable pub uint64_field : Text → Text → Option ℕ
unfolding find_value signed_decimal
uint64_field json key = elim (find_value json key) [
  | none ↦ none
  | some value ↦ elim (signed_decimal value) [ none ↦ none | some n ↦ some (as_uint64 n) ]
]

unfoldable pub uint32_field : Text → Text → Option ℕ
unfolding uint64_field
uint32_field json key = elim (uint64_field json key) [
  | none ↦ none
  | some n ↦ if leb (2 ^ 32) n then none else some n
]

-- The 32 bits of the `int`.
unfoldable pub int_field : Text → Text → Option ℕ
unfolding find_value signed_decimal
int_field json key = elim (find_value json key) [
  | none ↦ none
  | some value ↦ elim (signed_decimal value) [ none ↦ none | some n ↦ some (as_int n) ]
]

-- A hexadecimal digit.
unfoldable pub hex_value : ℕ → Option ℕ
hex_value c =
    if is_digit c
    then some (c - 48)
    else if leb 65 c && leb c 70
    then some (c - 55)
    else if leb 97 c && leb c 102
    then some (c - 87)
    else none

-- `(uint8_t)strtol` of two characters in base 16, `none` if it reads nothing: a blank or a sign may
-- stand in front, and what is no digit ends the number.
unfoldable pub hex_pair : ℕ → ℕ → Option ℕ
unfolding hex_value
hex_pair a b =
    if is_space a || (a == 43)
    then hex_value b
    else if a == 45
    then elim (hex_value b) [ none ↦ none | some n ↦ some (u8 (256 - n)) ]
    else elim (hex_value a) [
      | none ↦ none
      | some m ↦ elim (hex_value b) [ none ↦ some m | some n ↦ some (16 * m + n) ]
    ]

unfoldable pub hex_loop : Text → Option (List ℕ)
unfolding hex_pair
hex_loop (a ∷ b ∷ hex) =
    let later = hex_loop hex in
    elim (hex_pair a b) [
      | none ↦ none
      | some byte ↦ elim later [ none ↦ none | some bytes ↦ some (byte ∷ bytes) ]
    ]
hex_loop _ = some []

unfoldable pub hex_to_bytes : Text → ℕ → Option (List ℕ)
unfolding hex_loop
hex_to_bytes hex max_len =
    if length hex == 0
    then some []
    else if not (length hex % 2 == 0)
    then none
    else if ltb max_len (length hex / 2)
    then none
    else hex_loop hex

-- `ws_command_type`.
pub data Kind : Type 0 where
  unknown ping quic_send list_videos video_detail stream_start stream_chunk watch_get watch_update
        stream_seek stream_stop ws_init ws_segment list_continue :
      Kind

-- `ws_command_t` without the two fields that no command writes; an `int` is its 32 bits, and `payload` the first `payload_len` bytes.
pub record Command : Type 0 where
  pub kind : Kind
  pub connection_id : ℕ
  pub stream_id : ℕ
  pub offset : ℕ
  pub length_field : ℕ
  pub video_id : ℕ
  pub position : ℕ
  pub segment_index : ℕ
  pub payload : List ℕ

-- After `memset`, with the type.
abbrev pub command : Kind → Command
command kind = record {
  kind = kind;
  connection_id = 0;
  stream_id = 0;
  offset = 0;
  length_field = 0;
  video_id = 0;
  position = 0;
  segment_index = 0;
  payload = [];
}

-- The keys.
abbrev pub key_type : Text
key_type = codes "type"

abbrev pub key_connection_id : Text
key_connection_id = codes "connection_id"

abbrev pub key_stream_id : Text
key_stream_id = codes "stream_id"

abbrev pub key_offset : Text
key_offset = codes "offset"

abbrev pub key_length : Text
key_length = codes "length"

abbrev pub key_video_id : Text
key_video_id = codes "video_id"

abbrev pub key_position : Text
key_position = codes "position"

abbrev pub key_segment : Text
key_segment = codes "segment"

abbrev pub key_payload_hex : Text
key_payload_hex = codes "payload_hex"

-- An optional field.
abbrev pub default : ℕ → Option ℕ → ℕ
default d none = d
default d (some n) = n

-- A command with a video.
unfoldable pub with_video : Text → Kind → Option Command
unfolding int_field
with_video text kind = elim (int_field text key_video_id) [
  | none ↦ none
  | some id ↦ some (record (command kind) { video_id = id })
]

unfoldable pub parse_quic_send : Text → Option Command
unfolding uint64_field uint32_field string_field hex_to_bytes
parse_quic_send text = elim (uint64_field text key_connection_id) [
  | none ↦ none
  | some id ↦
      let cmd = record (command quic_send) {
        connection_id = id;
        stream_id = default 1 (uint32_field text key_stream_id);
        offset = default 0 (uint32_field text key_offset);
      } in
      elim (string_field text key_payload_hex (max_payload * 2 + 1)) [
        | none ↦ some cmd
        | some hex ↦ elim (hex_to_bytes hex max_payload) [
          | none ↦ none
          | some bytes ↦ some (record cmd { payload = bytes })
        ]
      ]
]

unfoldable pub parse_watch_update : Text → Option Command
unfolding with_video int_field
parse_watch_update text = elim (with_video text watch_update) [
  | none ↦ none
  | some cmd ↦ elim (int_field text key_position) [
    | none ↦ none
    | some n ↦ some (record cmd { position = n })
  ]
]

unfoldable pub parse_ws_segment : Text → Option Command
unfolding with_video int_field
parse_ws_segment text = elim (with_video text ws_segment) [
  | none ↦ none
  | some cmd ↦ elim (int_field text key_segment) [
    | none ↦ none
    | some n ↦ some (record cmd { segment_index = n })
  ]
]

unfoldable pub parse_stream_chunk : Text → Option Command
unfolding with_video uint32_field uint64_field
parse_stream_chunk text = elim (with_video text stream_chunk) [
  | none ↦ none
  | some cmd ↦ elim (uint32_field text key_offset) [
    | none ↦ none
    | some offset ↦ elim (uint32_field text key_length) [
      | none ↦ none
      | some len ↦ elim (uint64_field text key_connection_id) [
        | none ↦ none
        | some id ↦ some (record cmd {
          offset = offset;
          length_field = len;
          connection_id = id;
          stream_id = default 1 (uint32_field text key_stream_id);
        })
      ]
    ]
  ]
]

-- The command of a type.
unfoldable pub parse_typed : Text → Text → Option Command
unfolding with_video parse_quic_send parse_watch_update parse_ws_segment parse_stream_chunk
    same_exact
parse_typed type text =
    if same_exact type (codes "ping")
    then some (command ping)
    else if same_exact type (codes "quic_send")
    then parse_quic_send text
    else if same_exact type (codes "list_videos")
    then some (command list_videos)
    else if same_exact type (codes "list_continue")
    then some (command list_continue)
    else if same_exact type (codes "video_detail")
    then with_video text video_detail
    else if same_exact type (codes "watch_get")
    then with_video text watch_get
    else if same_exact type (codes "watch_update")
    then parse_watch_update text
    else if same_exact type (codes "stream_start")
    then with_video text stream_start
    else if same_exact type (codes "stream_chunk")
    then parse_stream_chunk text
    else if same_exact type (codes "ws_init")
    then with_video text ws_init
    else if same_exact type (codes "ws_segment")
    then parse_ws_segment text
    else none

unfoldable pub parse_command : Text → Option Command
unfolding string_field parse_typed
parse_command text = elim (string_field text key_type 32) [
  | none ↦ none
  | some type ↦ parse_typed type text
]
