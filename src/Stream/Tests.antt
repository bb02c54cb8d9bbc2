-- ===== src/Stream/Tests.antt =====
-- Runs of the stream code, and the theorems at concrete inputs.
use ott_quic.Common.{ℕ, ◌+◌, ◌*◌, ◌%◌, ◌≡◌, refl, true, false, none, List, [], ◌∷◌, All, arith}
use ott_quic.Stream.{
  StreamState, Manager, zero_state, manager_init, on_data, accept, deliver, find_or_create_stream,
  find_stream, find_free, consume_loop, overlap, copy_len, insert_at, manager_destroy,
}
use ott_quic.Stream.Slice.{slice}
use ott_quic.Stream.Accept.{StreamInv, Accepted, accept-Accepted}
use ott_quic.Stream.Position.{position, known_at}
use ott_quic.Stream.Deliver.{ManagerInv, Delivered, on_data-Delivered}
use ott_quic.Stream.Slots.{state_of}
use ott_quic.Stream.Reset.{Resets, reset_lem, state_of-manager_destroy}
use ott_quic.Stream.Run.{Call, FromSource, run, taken, run_prefix}

-- The source of every stream in these tests: byte `n` of stream `id` is `id + 3 n`.
abbrev source : ℕ → ℕ → ℕ
source id n = (id + 3 * n) % 256

-- Bytes 4 to 6 of stream 7 wait behind a gap; bytes 0 and 1 have been handed on.
abbrev waiting : StreamState
waiting = record {
  stream_id = 7;
  next_offset = 2;
  segments = record { offset = 4; bytes = slice (source 7) 4 3 } ∷ [];
  in_use = true;
}

waiting-StreamInv : StreamInv (source 7) waiting
waiting-StreamInv = record {
  agrees = (record { bytes_eq = refl; fits = omega arith }, tt);
  ordered = (tt, tt);
  below = omega arith;
}

-- Bytes 1 to 4 close the gap: bytes 2 to 6 are handed on, and the overlap is cut.
accept_closes_gap :
    accept true waiting 1 (slice (source 7) 1 4) 100
    ≡ (true, record waiting { next_offset = 7; segments = [] }, slice (source 7) 2 5)
unfolding accept consume_loop overlap copy_len insert_at
accept_closes_gap = refl

-- With room for three bytes the second segment is trimmed.
accept_full : accept true waiting 1 (slice (source 7) 1 4) 4 ≡ (
  true,
  record waiting {
    next_offset = 6;
    segments = record { offset = 6; bytes = slice (source 7) 6 1 } ∷ [];
  },
  slice (source 7) 2 4,
)
unfolding accept consume_loop overlap copy_len insert_at
accept_full = refl

accept-Accepted_example :
    Accepted (source 7) 4 waiting true 1 4 (accept true waiting 1 (slice (source 7) 1 4) 4)
accept-Accepted_example =
    accept-Accepted (source 7) 4 waiting waiting-StreamInv true 1 (slice (source 7) 1 4) refl
      (omega arith)

abbrev two_slots : Manager
two_slots = waiting ∷ zero_state ∷ []

two_slots-ManagerInv : ManagerInv source two_slots
two_slots-ManagerInv = ((λ u. waiting-StreamInv), ((λ u. cc), tt))

on_data-Delivered_example :
    Delivered source 100 true two_slots 7 1 4
      (on_data true two_slots 7 1 (slice (source 7) 1 4) 100)
on_data-Delivered_example =
    on_data-Delivered source 100 7 true two_slots 1 (slice (source 7) 1 4) two_slots-ManagerInv refl
      (omega arith)

-- A third stream finds no slot, and an empty packet is refused.
on_data_no_slot : (on_data true (waiting ∷ waiting ∷ []) 9 0 (1 ∷ []) 100).rc ≡ false
unfolding on_data find_or_create_stream find_stream find_free
on_data_no_slot = refl

-- Stream 7 out of order with a repetition, between packets of stream 9, and one lost to `malloc`.
abbrev calls : List Call
calls =
    record { alloc = true; id = 7; offset = 3; bytes = slice (source 7) 3 2; size = 100 }
    ∷ record { alloc = true; id = 9; offset = 0; bytes = slice (source 9) 0 2; size = 100 }
    ∷ record { alloc = false; id = 7; offset = 0; bytes = slice (source 7) 0 3; size = 100 }
    ∷ record { alloc = true; id = 7; offset = 3; bytes = slice (source 7) 3 2; size = 100 }
    ∷ record { alloc = true; id = 7; offset = 0; bytes = slice (source 7) 0 3; size = 100 }
    ∷ []

calls_result : (run 7 manager_init calls).1 ≡ slice (source 7) 0 5
unfolding run manager_init on_data find_or_create_stream find_stream find_free deliver consume_loop
    overlap copy_len insert_at
calls_result = refl

calls-FromSource : All (FromSource source) calls
calls-FromSource = (
  (refl, omega arith),
  ((refl, omega arith), ((refl, omega arith), ((refl, omega arith), ((refl, omega arith), tt)))),
)

run_prefix_example :
    let (m, received) = run 7 manager_init calls in
    (received ≡ slice (source 7) 0 (position m 7))
    × ((p : ℕ) → known_at m 7 p ≡ taken 7 manager_init calls p)
run_prefix_example = run_prefix source 7 calls calls-FromSource

reset_lem_example : Resets two_slots 7 9
reset_lem_example = reset_lem two_slots 7 9

state_of-manager_destroy_example : state_of (manager_destroy two_slots) 7 ≡ none
state_of-manager_destroy_example = state_of-manager_destroy two_slots 7
