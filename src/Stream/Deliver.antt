-- ===== src/Stream/Deliver.antt =====
-- `quic_stream_on_data` on a manager whose segments agree with what the peers send.
use ott_quic.Common.{
  ℕ, ◌+◌, ◌^◌, ◌≤◌, ◌<◌, ◌≡◌, ◌≢◌, ◌⊎◌, refl, sym, ap, ◌∙◌, Bool, true, false, Option, none, some,
  List, [], length, All, ◌==◌, ◌||◌, ◌&&◌, ltb, if◌then◌else◌, Bool-cases, Option-cases, ℕ_discrete,
  get_elem?, get_elem?-set_self, get_elem?-lt, set, inl, inr, arith,
}
use mathlib.Core.Path.{subst}
use ott_quic.Stream.{
  StreamState, Manager, insert_segment, accept, deliver, on_data, Delivery, find_or_create_stream,
  find_stream, find_free, refused,
}
use ott_quic.Stream.Slice.{slice}
use ott_quic.Stream.Known.{within}
use ott_quic.Stream.Slots.{
  find_stream-slot, find_stream-some, find_stream-none, find_free-some, find_stream-set_free,
  state_of-set_found, state_of-set_ne, set-All, get_elem?-All,
}
use ott_quic.Stream.Accept.{StreamInv, accept-Accepted}
use ott_quic.Stream.Position.{
  position, position-some, position-none, position_same, known_at, known_at-some, known_at-none,
  known_at_same,
}

-- Every stream in use reassembles the bytes that its peer sends, `srcs` at its id.
abbrev pub ManagerInv : (ℕ → ℕ → ℕ) → Manager → Type 0
ManagerInv srcs m =
    All (λ (st : StreamState). st.in_use ≡ true → StreamInv (srcs st.stream_id) st) m

-- The effect of a delivery of `n` bytes from an offset on one stream and on the others.
pub record Delivered (srcs : ℕ → ℕ → ℕ) (size : ℕ) (alloc : Bool) (m : Manager) (id offset n : ℕ)
    (d : Delivery) : Type 0 where
  pub inv : ManagerInv srcs d.mgr
  pub refusal :
      (d.rc ≡ true)
      ⊎ (alloc ≡ false)
      ⊎ (((n == 0) || (size == 0)) ≡ true)
      ⊎ (find_or_create_stream m id ≡ none)
  pub out_eq : d.out ≡ slice (srcs id) (position m id) (length d.out)
  pub positions :
      (j : ℕ) → position d.mgr j ≡ (if j == id then position m j + length d.out else position m j)
  pub known_eq :
      (j p : ℕ)
      → known_at d.mgr j p ≡ (known_at m j p || ((j == id) && (d.rc && within offset n p)))
  pub full_or_gap :
      (d.rc ≡ false) ⊎ (length d.out ≡ size) ⊎ (known_at d.mgr id (position d.mgr id) ≡ false)
  pub room : length d.out ≤ size

module _ (srcs : ℕ → ℕ → ℕ) (size id : ℕ) where
  -- What may be the reason of a refusal.
  abbrev Reason : Bool → Manager → ℕ → Type 0
  Reason alloc m n =
      (alloc ≡ false) ⊎ (((n == 0) || (size == 0)) ≡ true) ⊎ (find_or_create_stream m id ≡ none)

  refused-Delivered :
      (alloc : Bool) (m : Manager) (offset n : ℕ)
      → ManagerInv srcs m
      → Reason alloc m n
      → Delivered srcs size alloc m id offset n (refused m)
  refused-Delivered alloc m offset n inv reason = record {
    inv = inv;
    refusal = inr reason;
    out_eq = refl;
    positions = λ j. ground arith;
    known_eq = λ j p. ground arith;
    full_or_gap = inl refl;
    room = omega arith;
  }

  fresh : StreamState
  fresh = record { stream_id = id; next_offset = 0; segments = []; in_use = true }

  -- What holds of the slot and the manager that `find_or_create_stream` returns.
  abbrev Found : Manager → ℕ × Manager → Type 0
  Found m p =
      ManagerInv srcs p.1
      × (find_stream p.1 id ≡ some p.0)
      × (position p.1 id ≡ position m id)
      × ((j : ℕ) → j ≢ id → position p.1 j ≡ position m j)
      × ((j q : ℕ) → known_at p.1 j q ≡ known_at m j q)

  create_Found :
      (m : Manager) (i : ℕ)
      → ManagerInv srcs m
      → find_stream m id ≡ none
      → find_free m ≡ some i
      → Found m (i, set m i fresh)
  unfolding fresh
  create_Found m i inv n f =
      let (old, at, unused) = find_free-some m i f in
      let found = find_stream-set_free m id i fresh n f refl refl in
      let at' = get_elem?-set_self m i fresh (get_elem?-lt m i old at) in
      (
        set-All _ m i fresh (λ u. record { agrees = tt; ordered = tt; below = omega arith }) inv,
        found,
        position-some (set m i fresh) id fresh
              (find_stream-slot (set m i fresh) id i fresh found at').0
            ∙ sym (position-none m id (find_stream-none m id n)),
        λ j ne.
            position_same m (set m i fresh) j
              (state_of-set_ne m j i old fresh at (inl unused) (λ e. ne (sym e))),
        λ j q. elim (ℕ_discrete j id) [
          | yes e ↦
              let state = (find_stream-slot (set m i fresh) id i fresh found at').0 in
              subst (λ (k : ℕ). known_at (set m i fresh) k q ≡ known_at m k q) (sym e)
                (known_at-some (set m i fresh) id q fresh state
                  ∙ no_byte q
                  ∙ sym (known_at-none m id q (find_stream-none m id n)))
          | no ne ↦
              known_at_same m (set m i fresh) j q
                (state_of-set_ne m j i old fresh at (inl unused) (λ e. ne (sym e)))
        ],
      )
    where
      no_byte : (q : ℕ) → (ltb q 0 || false) ≡ false
      no_byte q = ground arith

  created :
      (m : Manager) (p : ℕ × Manager)
      → ManagerInv srcs m
      → find_or_create_stream m id ≡ some p
      → Found m p
  unfolding find_or_create_stream fresh
  created m p inv h = elim (Option-cases (find_stream m id)) [
    | inr (k, e) ↦ subst (Found m) (cc) (inv, e, refl, (λ j ne. refl), λ j q. refl)
    | inl e ↦ elim (Option-cases (find_free m)) [
      | inl f ↦ cc
      | inr (k, f) ↦ subst (Found m) (sent k e f) (create_Found m k inv e f)
    ]
  ]
    where
      sent_option :
          (k : ℕ)
          → find_stream m id ≡ none
          → find_free m ≡ some k
          → ◌≡◌ {A = Option (ℕ × Manager)} (some (k, set m k fresh)) (some p)
      sent_option k e f = rw (e, f, find_or_create_stream) at h

      sent :
          (k : ℕ)
          → find_stream m id ≡ none
          → find_free m ≡ some k
          → ◌≡◌ {A = ℕ × Manager} (k, set m k fresh) p
      sent k e f = cc (sent_option k e f)

  deliver-Delivered :
      (alloc : Bool) (offset : ℕ) (bytes : List ℕ) (m : Manager) (i : ℕ) (st : StreamState)
      → bytes ≡ slice (srcs id) offset (length bytes)
      → offset + length bytes < 2 ^ 32
      → ManagerInv srcs m
      → find_stream m id ≡ some i
      → get_elem? m i ≡ some st
      → Delivered srcs size alloc m id offset
          (length bytes)
          (deliver alloc m i st offset bytes size)
  unfolding deliver
  deliver-Delivered alloc offset bytes m i st e f inv found at =
      let (state, used, same) = find_stream-slot m id i st found at in
      let st-inv : StreamInv (srcs id) st =
        subst (λ (k : ℕ). StreamInv (srcs k) st) same (get_elem?-All _ m i st at inv used) in
      let a = accept-Accepted (srcs id) size st st-inv alloc offset bytes e f in
      let st' = (accept alloc st offset bytes size).1 in
      let same' : st'.stream_id ≡ id = a.same_id ∙ same in
      let state' = state_of-set_found m id i st' found (a.same_use ∙ used) same' in
      let now = position-some (set m i st') id st' state' in
      record {
        refusal = elim (Bool-cases alloc) [ inl y ↦ inl (a.rc_eq ∙ y) | inr n ↦ inr (inl n) ];
        known_eq = λ j p. elim (ℕ_discrete j id) [
          | yes e ↦ ground (
            arith,
            known_at-some (set m i st') id p st' state',
            a.known_eq p,
            a.rc_eq,
            known_at-some m id p st state,
          )
          | no ne ↦ ground (
            arith,
            known_at_same m (set m i st') j p (
                state_of-set_ne m j i st st' at (inr (λ x. ne (sym x ∙ same)))
                  (λ x. ne (sym x ∙ same'))),
          )
        ];
        full_or_gap = elim a.full_or_gap [
          | inl n ↦ inl (a.rc_eq ∙ n)
          | inr (inl full) ↦ inr (inl full)
          | inr (inr gap) ↦ inr (
              inr (
                ap (known_at (set m i st') id) now
                ∙ known_at-some (set m i st') id st'.next_offset st' state'
                ∙ gap))
        ];
        inv =
            set-All _ m i st' (λ _. subst (λ (k : ℕ). StreamInv (srcs k) st') (sym same') a.inv)
              inv;
        out_eq = rw (position-some m id st state) a.out_eq;
        positions = λ j. elim (ℕ_discrete j id) [
          | yes e ↦ ground (arith, now, a.next_eq, position-some m id st state)
          | no ne ↦ ground (
            arith,
            position_same m (set m i st') j (
                state_of-set_ne m j i st st' at (inr (λ x. ne (sym x ∙ same)))
                  (λ x. ne (sym x ∙ same'))),
          )
        ];
        room = a.room;
      }

  deliver-rc :
      (alloc : Bool) (offset : ℕ) (bytes : List ℕ) (m : Manager) (i : ℕ) (st : StreamState)
      → ((deliver alloc m i st offset bytes size).rc ≡ true) ⊎ (alloc ≡ false)
  unfolding deliver accept insert_segment
  deliver-rc true offset bytes m i st = inl refl
  deliver-rc false offset bytes m i st = inr refl

  -- A delivery into the manager that holds the stream's slot, seen from the manager before.
  from_before :
      (alloc : Bool) (m m' : Manager) (i offset n : ℕ) (d : Delivery)
      → Found m (i, m')
      → (d.rc ≡ true) ⊎ (alloc ≡ false)
      → Delivered srcs size alloc m' id offset n d
      → Delivered srcs size alloc m id offset n d
  from_before alloc m m' i offset n d (inv, found, same, others, bytes) why r = record {
    inv = r.inv;
    refusal = elim why [ inl y ↦ inl y | inr failed ↦ inr (inl failed) ];
    out_eq = rw same at r.out_eq;
    positions = λ j. elim (ℕ_discrete j id) [
      | yes e ↦ ground (arith, r.positions j, same)
      | no ne ↦ ground (arith, r.positions j, others j ne)
    ];
    known_eq = λ j p. rw (bytes j p) at (r.known_eq j p);
    full_or_gap = r.full_or_gap;
    room = r.room;
  }

  -- `quic_stream_on_data` fails only if `malloc` does, the packet or `out_buf` is empty, or the
  -- stream has no slot and none is free. Whatever it returns, it hands on the bytes of the stream's
  -- source from the stream's position on, in order and without a gap, moves that position by their
  -- number, writes at most `size` of them and leaves the positions of all other streams alone. Of
  -- every stream the same bytes are known afterwards, and after a success of this one exactly the
  -- new ones too; after a success `out_buf` is full or the next byte is not known. It keeps the
  -- invariant. The hypotheses: each stream in use reassembles its source, the new bytes are the
  -- source's, and they end below 2^32.
  pub on_data-Delivered :
      (alloc : Bool) (m : Manager) (offset : ℕ) (bytes : List ℕ)
      → ManagerInv srcs m
      → bytes ≡ slice (srcs id) offset (length bytes)
      → offset + length bytes < 2 ^ 32
      → Delivered srcs size alloc m id offset (length bytes) (on_data alloc m id offset bytes size)
  unfolding on_data
  on_data-Delivered alloc m offset bytes inv e f =
      let n = length bytes in
      elim (Bool-cases ((n == 0) || (size == 0))) [
        | inl z ↦ rw (on_data, z) (refused-Delivered alloc m offset n inv (inr (inl z)))
        | inr z ↦ elim (Option-cases (find_or_create_stream m id)) [
          | inl full ↦
              rw (on_data, z, full) (refused-Delivered alloc m offset n inv (inr (inr full)))
          | inr ((i, m'), c) ↦
              let found = created m (i, m') inv c in
              let slot = find_stream-some m' id i found.1 in
              let d = deliver alloc m' i slot.0 offset bytes size in
              rw (on_data, z, c, slot.1)
                (from_before alloc m m' i offset n d found
                  (deliver-rc alloc offset bytes m' i slot.0)
                  (deliver-Delivered alloc offset bytes m' i slot.0 e f found.0 found.1 slot.1))
        ]
      ]
