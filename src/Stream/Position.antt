-- ===== src/Stream/Position.antt =====
-- How far the streams of a manager are, and which bytes they know.
use ott_quic.Common.{ℕ, ◌≡◌, Bool, false, none, some}
use ott_quic.Stream.{StreamState, Manager}
use ott_quic.Stream.Known.{known}
use ott_quic.Stream.Slots.{state_of}

-- The offset up to which a stream's bytes have been handed on.
unfoldable pub position : Manager → ℕ → ℕ
position m id = elim (state_of m id) [ none ↦ 0 | some st ↦ st.next_offset ]

pub position-some :
    (m : Manager) (id : ℕ) (st : StreamState)
    → state_of m id ≡ some st
    → position m id ≡ st.next_offset
unfolding position
position-some m id st h = rw (h, position)

pub position-none : (m : Manager) (id : ℕ) → state_of m id ≡ none → position m id ≡ 0
unfolding position
position-none m id h = rw (h, position)

pub position_same :
    (m m' : Manager) (id : ℕ) → state_of m' id ≡ state_of m id → position m' id ≡ position m id
unfolding position
position_same m m' id h = rw (h, position)

-- Whether a stream knows the byte at position `p`.
unfoldable pub known_at : Manager → ℕ → ℕ → Bool
known_at m id p = elim (state_of m id) [ none ↦ false | some st ↦ known st p ]

pub known_at-some :
    (m : Manager) (id p : ℕ) (st : StreamState)
    → state_of m id ≡ some st
    → known_at m id p ≡ known st p
unfolding known_at
known_at-some m id p st h = rw (h, known_at)

pub known_at-none : (m : Manager) (id p : ℕ) → state_of m id ≡ none → known_at m id p ≡ false
unfolding known_at
known_at-none m id p h = rw (h, known_at)

pub known_at_same :
    (m m' : Manager) (id p : ℕ)
    → state_of m' id ≡ state_of m id
    → known_at m' id p ≡ known_at m id p
unfolding known_at
known_at_same m m' id p h = rw (h, known_at)
