-- ===== src/Stream/Slots.antt =====
-- The sixteen slots of a manager as a partial map from stream ids to streams.
use ott_quic.Common.{
  ℕ, zero, suc, ◌≡◌, ◌≢◌, ◌⊎◌, refl, true, false, ◌&&◌, Option, none, some, [], ◌∷◌, All, ◌==◌,
  if◌then◌else◌, get_elem?, set, arith,
}
use mathlib.Core.Path.{subst}
use ott_quic.Stream.{StreamState, Manager, find_stream, find_free}

-- The stream of an id: its slot is the first in use that carries the id.
unfoldable pub state_of : Manager → ℕ → Option StreamState
state_of [] id = none
state_of (s ∷ m) id = if s.in_use && (s.stream_id == id) then some s else state_of m id

-- What the search of a used slot returns is the slot of the stream.
pub find_stream-some :
    (m : Manager) (id i : ℕ)
    → find_stream m id ≡ some i
    → (st : StreamState) × (get_elem? m i ≡ some st)
      × (state_of m id ≡ some st)
      × (st.in_use ≡ true)
      × (st.stream_id ≡ id)
unfolding find_stream state_of
find_stream-some [] id i h = cc
find_stream-some (s ∷ m) id zero h = (s, refl, ground arith, ground arith, ground arith)
find_stream-some (s ∷ m) id (suc i) h =
    let r = find_stream-some m id i (ground arith) in (r.0, r.1, ground (arith, r.2), r.3, r.4)

pub find_stream-slot :
    (m : Manager) (id i : ℕ) (st : StreamState)
    → find_stream m id ≡ some i
    → get_elem? m i ≡ some st
    → (state_of m id ≡ some st) × (st.in_use ≡ true) × (st.stream_id ≡ id)
find_stream-slot m id i st h at =
    let (st', at', state, used, same) = find_stream-some m id i h in
    subst (λ (s : StreamState). (state_of m id ≡ some s) × (s.in_use ≡ true) × (s.stream_id ≡ id))
      (cc) (state, used, same)

pub find_stream-none : (m : Manager) (id : ℕ) → find_stream m id ≡ none → state_of m id ≡ none
unfolding find_stream state_of
find_stream-none [] id h = refl
find_stream-none (s ∷ m) id h = ground (arith, find_stream-none m id)

pub find_free-some :
    (m : Manager) (i : ℕ)
    → find_free m ≡ some i
    → (st : StreamState) × (get_elem? m i ≡ some st) × (st.in_use ≡ false)
unfolding find_free
find_free-some [] i h = cc
find_free-some (s ∷ m) zero h = (s, refl, ground arith)
find_free-some (s ∷ m) (suc i) h = find_free-some m i (ground arith)

-- Writing the slot that the search found changes the stream of that id.
pub state_of-set_found :
    (m : Manager) (id i : ℕ) (st : StreamState)
    → find_stream m id ≡ some i
    → st.in_use ≡ true
    → st.stream_id ≡ id
    → state_of (set m i st) id ≡ some st
unfolding find_stream state_of
state_of-set_found [] id i st h u e = cc
state_of-set_found (s ∷ m) id zero st h u e = ground arith
state_of-set_found (s ∷ m) id (suc i) st h u e = ground (arith, state_of-set_found m id i st)

-- After a stream is put into the first free slot, the search finds that slot.
pub find_stream-set_free :
    (m : Manager) (id i : ℕ) (st : StreamState)
    → find_stream m id ≡ none
    → find_free m ≡ some i
    → st.in_use ≡ true
    → st.stream_id ≡ id
    → find_stream (set m i st) id ≡ some i
unfolding find_free find_stream
find_stream-set_free [] id i st n h u e = cc
find_stream-set_free (s ∷ m) id zero st n h u e = ground arith
find_stream-set_free (s ∷ m) id (suc i) st n h u e = ground (arith, find_stream-set_free m id i st)

-- Writing a slot leaves the streams of other ids alone.
pub state_of-set_ne :
    (m : Manager) (j i : ℕ) (old st : StreamState)
    → get_elem? m i ≡ some old
    → (old.in_use ≡ false) ⊎ (old.stream_id ≢ j)
    → st.stream_id ≢ j
    → state_of (set m i st) j ≡ state_of m j
unfolding state_of
state_of-set_ne [] j i old st h o n = refl
state_of-set_ne (s ∷ m) j zero old st h o n = ground arith
state_of-set_ne (s ∷ m) j (suc i) old st h o n = ground (arith, state_of-set_ne m j i old st h o n)

pub set-All {κ} :
    (P : StreamState → Type κ) (m : Manager) (i : ℕ) (st : StreamState)
    → P st
    → All P m
    → All P (set m i st)
set-All P [] i st p h = tt
set-All P (s ∷ m) zero st p (ps, h) = (p, h)
set-All P (s ∷ m) (suc i) st p (ps, h) = (ps, set-All P m i st p h)

pub get_elem?-All {κ} :
    (P : StreamState → Type κ) (m : Manager) (i : ℕ) (st : StreamState)
    → get_elem? m i ≡ some st
    → All P m
    → P st
get_elem?-All P [] i st e h = cc
get_elem?-All P (s ∷ m) zero st e (p, h) = subst P (cc) p
get_elem?-All P (s ∷ m) (suc i) st e (p, h) = get_elem?-All P m i st e h
