-- ===== src/Stream.antt =====
-- src/server/quic_stream.c: the reassembly of one connection's streams. A `malloc`ed segment is a
-- list of bytes, the chain of segments a list, and a failing `malloc` the argument `alloc`.
mod Slice
pub mod Round
pub mod Reassembly
pub mod Order
pub mod Known
pub mod Slots
pub mod Accept
pub mod Position
pub mod Deliver
pub mod Run
pub mod Reset
mod Tests
use ott_quic.Common.{
  ℕ, ◌+◌, ◌-◌, Bool, true, false, ◌&&◌, ◌||◌, Option, none, some, List, [], ◌∷◌, ◌++◌, ltb, leb,
  ◌==◌, if◌then◌else◌, length, get_elem?, take, drop, set, replicate, u32,
}

abbrev pub max_streams : ℕ
max_streams = 16

-- `quic_stream_segment_t`: `bytes` are the `length` bytes at `data`; what `data` holds beyond
-- them, after a `memmove`, is never read.
pub record Segment : Type 0 where
  pub offset : ℕ
  pub bytes : List ℕ

-- `quic_stream_state_t`, the chain from `segments` on as a list.
pub record StreamState : Type 0 where
  pub stream_id : ℕ
  pub next_offset : ℕ
  pub segments : List Segment
  pub in_use : Bool

-- `quic_stream_manager_t`: the array of `max_streams` slots.
abbrev pub Manager : Type 0
Manager = List StreamState

-- What `memset` leaves of a slot.
abbrev pub zero_state : StreamState
zero_state = record { stream_id = 0; next_offset = 0; segments = []; in_use = false }

unfoldable pub manager_init : Manager
manager_init = replicate max_streams zero_state

unfoldable pub manager_destroy : Manager → Manager
manager_destroy [] = []
manager_destroy (s ∷ m) =
    (if s.in_use then record s { segments = []; in_use = false } else s) ∷ manager_destroy m

-- The result is the return code, 0 as `true`, and the manager.
unfoldable pub reset : Manager → ℕ → Bool × Manager
reset [] id = (false, [])
reset (s ∷ m) id =
    let (found, m') = reset m id in
    if s.in_use && (s.stream_id == id)
    then (true, record s { segments = []; next_offset = 0 } ∷ m)
    else (found, s ∷ m')

-- The loop over `cursor`: past every segment with a smaller offset.
unfoldable pub insert_at : Segment → List Segment → List Segment
insert_at node [] = node ∷ []
insert_at node (s ∷ rest) =
    if ltb s.offset node.offset then s ∷ insert_at node rest else node ∷ s ∷ rest

-- `alloc` says whether both calls of `malloc` succeed; `none` is the code -1.
unfoldable pub insert_segment : Bool → StreamState → ℕ → List ℕ → Option StreamState
insert_segment alloc state offset bytes =
    if alloc
    then some (record state {
      segments = insert_at (record { offset = offset; bytes = bytes }) state.segments;
    })
    else none

-- What the loop of `consume_segments` leaves: `state->segments`, `state->next_offset` and the
-- bytes of `out_buf` written so far, `written` of them.
pub record Consumed : Type 0 where
  pub segments : List Segment
  pub next_offset : ℕ
  pub out : List ℕ

-- `start` in the loop: how much of the segment lies before `next`.
unfoldable pub overlap : ℕ → Segment → ℕ
overlap next s = if ltb s.offset next then next - s.offset else 0

-- `to_copy` in the loop: what is left of the segment, as far as there is room.
unfoldable pub copy_len : ℕ → ℕ → Segment → List ℕ → ℕ
copy_len size next s out =
    let remaining = length s.bytes - overlap next s in
    if ltb (size - length out) remaining then size - length out else remaining

-- The loop itself, a round for each segment.
unfoldable pub consume_loop : ℕ → List Segment → ℕ → List ℕ → Consumed
consume_loop size [] next out = record { segments = []; next_offset = next; out = out }
consume_loop size (s ∷ rest) next out =
    let start = overlap next s in
    let n = copy_len size next s out in
    let out' = out ++ take n (drop start s.bytes) in
    let next' = u32 (next + n) in
    let consumed = u32 (start + n) in
    let trimmed : Segment = record {
      offset = u32 (s.offset + consumed);
      bytes = drop consumed s.bytes;
    } in
    let skip = consume_loop size rest next out in
    let go_on = consume_loop size rest next' out' in
    if leb s.offset next
    then if leb (length s.bytes) start
      then skip
      else if ltb (start + n) (length s.bytes)
      then record { segments = trimmed ∷ rest; next_offset = next'; out = out' }
      else go_on
    else record { segments = s ∷ rest; next_offset = next; out = out }

-- The new state, and the bytes put into `out_buf`.
unfoldable pub consume_segments : ℕ → StreamState → StreamState × List ℕ
consume_segments size state =
    let c = consume_loop size state.segments state.next_offset [] in
    (record state { segments = c.segments; next_offset = c.next_offset }, c.out)

-- The index of the slot that is in use for a stream.
unfoldable pub find_stream : Manager → ℕ → Option ℕ
find_stream [] id = none
find_stream (s ∷ m) id =
    let later = find_stream m id in
    if s.in_use && (s.stream_id == id)
    then some 0
    else elim later [ none ↦ none | some i ↦ some (i + 1) ]

-- The index of the first slot that is not in use.
unfoldable pub find_free : Manager → Option ℕ
find_free [] = none
find_free (s ∷ m) =
    let later = find_free m in
    if s.in_use then elim later [ none ↦ none | some i ↦ some (i + 1) ] else some 0

-- The index of the stream's slot, and the manager with that slot in use; `none` is NULL.
unfoldable pub find_or_create_stream : Manager → ℕ → Option (ℕ × Manager)
find_or_create_stream m id = elim (find_stream m id) [
  | some i ↦ some (i, m)
  | none ↦ elim (find_free m) [
    | none ↦ none
    | some i ↦
        some (i, set m i (record { stream_id = id; next_offset = 0; segments = []; in_use = true }))
  ]
]

-- What `quic_stream_on_data` does with the stream that it found: the return code, the stream and
-- the bytes in `out_buf`.
unfoldable pub accept : Bool → StreamState → ℕ → List ℕ → ℕ → Bool × StreamState × List ℕ
unfolding insert_segment consume_segments
accept alloc state offset bytes size = elim (insert_segment alloc state offset bytes) [
  | none ↦ (false, state, [])
  | some state' ↦ let (state'', out) = consume_segments size state' in (true, state'', out)
]

-- The results of `quic_stream_on_data`: the return code, 0 as `true`, the manager, `*out_offset`
-- where it is written, and the `*out_len` bytes in `out_buf`.
pub record Delivery : Type 0 where
  pub rc : Bool
  pub mgr : Manager
  pub out_offset : Option ℕ
  pub out : List ℕ

abbrev pub refused : Manager → Delivery
refused m = record { rc = false; mgr = m; out_offset = none; out = [] }

unfoldable pub deliver : Bool → Manager → ℕ → StreamState → ℕ → List ℕ → ℕ → Delivery
unfolding accept
deliver alloc m i state offset bytes size =
    let (rc, state', out) = accept alloc state offset bytes size in
    record { rc = rc; mgr = set m i state'; out_offset = some state.next_offset; out = out }

-- `size` is `out_buf_size`; `length` of the source is the length of `bytes`.
unfoldable pub on_data : Bool → Manager → ℕ → ℕ → List ℕ → ℕ → Delivery
on_data alloc m id offset bytes size =
    if (length bytes == 0) || (size == 0) then refused m else elim (find_or_create_stream m id) [
      | none ↦ refused m
      | some (i, m') ↦ elim (get_elem? m' i) [
        | none ↦ refused m'
        | some state ↦ deliver alloc m' i state offset bytes size
      ]
    ]
