-- ===== src/Stream/Reset.antt =====
-- `quic_stream_reset` and `quic_stream_manager_destroy` on the map from ids to streams.
use ott_quic.Common.{
  ℕ, ◌≡◌, refl, Bool, true, false, ◌&&◌, Option, none, some, [], ◌∷◌, ◌==◌, if◌then◌else◌,
  Bool-cases, inl, inr, arith,
}
use mathlib.Core.Option
use ott_quic.Stream.{StreamState, Manager, reset, manager_destroy}
use ott_quic.Stream.Slots.{state_of}

-- A stream as `quic_stream_reset` leaves it.
abbrev pub cleared : StreamState → StreamState
cleared st = record st { next_offset = 0; segments = [] }

abbrev pub is_some : Option StreamState → Bool
is_some none = false
is_some (some st) = true

-- The effect of a reset of stream `id`, as it is seen of a stream `j`.
abbrev pub Resets : Manager → ℕ → ℕ → Type 0
Resets m id j =
    let (rc, m') = reset m id in
    (rc ≡ is_some (state_of m id))
    × (state_of m' j ≡ (if j == id then Option.map cleared (state_of m j) else state_of m j))
    × (m' ≡ (if rc then m' else m))

-- `quic_stream_reset` returns 0 exactly when the id has a stream; then that stream waits for
-- offset 0 with no segments, and every other stream is as before. Without a stream nothing changes.
pub reset_lem : (m : Manager) (id j : ℕ) → Resets m id j
unfolding reset state_of
reset_lem [] id j = (refl, ground arith, refl)
reset_lem (s ∷ m) id j =
    let (a, b, c) = reset_lem m id j in
    elim (Bool-cases (s.in_use && (s.stream_id == id))) [
      | inl e ↦ rw e (refl, ground arith, refl)
      | inr e ↦ rw e (a, ground (arith, b), ground (arith, c))
    ]

-- After `quic_stream_manager_destroy` no id has a stream.
pub state_of-manager_destroy : (m : Manager) (id : ℕ) → state_of (manager_destroy m) id ≡ none
unfolding manager_destroy state_of
state_of-manager_destroy [] id = refl
state_of-manager_destroy (s ∷ m) id = ground (arith, state_of-manager_destroy m id)
