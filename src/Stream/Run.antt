-- ===== src/Stream/Run.antt =====
-- A run of deliveries: what the receiver's application gets of each stream.
use ott_quic.Common.{
  ℕ, zero, suc, ◌+◌, ◌^◌, ◌<◌, ◌≡◌, inl, inr, refl, sym, ◌∙◌, Bool, false, ◌&&◌, ◌||◌, List, [],
  ◌∷◌, ◌++◌, length, All, ◌==◌, if◌then◌else◌, arith, length-append, Bool-cases, ==_iff, replicate,
}
use mathlib.Core.Path.{ap₂, subst}
use ott_quic.Stream.{Manager, manager_init, zero_state, max_streams, on_data}
use ott_quic.Stream.Slice.{slice, slice_eq, slice-append}
use ott_quic.Stream.Slots.{state_of}
use ott_quic.Stream.Known.{within}
use ott_quic.Stream.Position.{position, known_at}
use ott_quic.Stream.Deliver.{ManagerInv, on_data-Delivered}

-- One call of `quic_stream_on_data`, with the luck of its `malloc`s.
pub record Call : Type 0 where
  pub alloc : Bool
  pub id : ℕ
  pub offset : ℕ
  pub bytes : List ℕ
  pub size : ℕ

abbrev pub call : Manager → Call → Manager × List ℕ
call m c = let d = on_data c.alloc m c.id c.offset c.bytes c.size in (d.mgr, d.out)

-- The calls in turn: the manager at the end, and the bytes handed on for stream `j`.
unfoldable pub run : ℕ → Manager → List Call → Manager × List ℕ
run j m [] = (m, [])
run j m (c ∷ cs) =
    let (m', out) = call m c in
    let (m'', later) = run j m' cs in (m'', (if c.id == j then out else []) ++ later)

-- Whether one of the calls for stream `j` succeeded with the byte at position `p`.
unfoldable pub taken : ℕ → Manager → List Call → ℕ → Bool
taken j m [] p = false
taken j m (c ∷ cs) p =
    let d = on_data c.alloc m c.id c.offset c.bytes c.size in
    ((j == c.id) && (d.rc && within c.offset (length c.bytes) p)) || taken j d.mgr cs p

-- The bytes of a call are those of the stream's source at its offset.
abbrev pub FromSource : (ℕ → ℕ → ℕ) → Call → Type 0
FromSource srcs c =
    (c.bytes ≡ slice (srcs c.id) c.offset (length c.bytes)) × (c.offset + length c.bytes < 2 ^ 32)

module _ (srcs : ℕ → ℕ → ℕ) (j : ℕ) where
  abbrev Received : Manager → Manager × List ℕ → Type 0
  Received m r =
      (r.1 ≡ slice (srcs j) (position m j) (length r.1))
      × (position r.0 j ≡ position m j + length r.1)

  -- One more call before a run.
  more :
      (m m' : Manager) (out : List ℕ) (r : Manager × List ℕ)
      → out ≡ slice (srcs j) (position m j) (length out)
      → position m' j ≡ position m j + length out
      → Received m' r
      → Received m (r.0, out ++ r.1)
  more m m' out r e p (e', p') = (
    ap₂ ◌++◌ e (e' ∙ slice_eq (srcs j) _ _ _ _ p refl)
        ∙ slice-append (srcs j) (position m j) (length out) (length r.1)
        ∙ slice_eq (srcs j) _ _ _ _ refl (sym (length-append out r.1)),
    omega (arith, length-append out r.1),
  )

  run-Received :
      (cs : List Call) (m : Manager)
      → ManagerInv srcs m
      → All (FromSource srcs) cs
      → Received m (run j m cs)
  unfolding run
  run-Received [] m inv h = (refl, omega arith)
  run-Received (c ∷ cs) m inv ((e, f), h) =
      let d = on_data-Delivered srcs c.size c.id c.alloc m c.offset c.bytes inv e f in
      let later = run-Received cs (on_data c.alloc m c.id c.offset c.bytes c.size).mgr d.inv h in
      let d' = on_data c.alloc m c.id c.offset c.bytes c.size in
      elim (Bool-cases (c.id == j)) [
        | inl same ↦
            let id : c.id ≡ j = (==_iff c.id j).0 same in
            rw same (
              more m d'.mgr d'.out _
                (subst (λ (k : ℕ). d'.out ≡ slice (srcs k) (position m k) (length d'.out)) id
                  d.out_eq)
                (ground (arith, d.positions j)) later)
        | inr other ↦ rw other (more m d'.mgr [] _ refl (ground (arith, d.positions j)) later)
      ]

  run-known :
      (cs : List Call) (m : Manager) (p : ℕ)
      → ManagerInv srcs m
      → All (FromSource srcs) cs
      → known_at (run j m cs).0 j p ≡ (known_at m j p || taken j m cs p)
  unfolding run taken
  run-known [] m p inv h = ground arith
  run-known (c ∷ cs) m p inv ((e, f), h) =
      let d = on_data-Delivered srcs c.size c.id c.alloc m c.offset c.bytes inv e f in
      let later = run-known cs (on_data c.alloc m c.id c.offset c.bytes c.size).mgr p d.inv h in
      ground (arith, later, d.known_eq j p)

empty-ManagerInv : (srcs : ℕ → ℕ → ℕ) (n : ℕ) → ManagerInv srcs (replicate n zero_state)
empty-ManagerInv srcs zero = tt
empty-ManagerInv srcs (suc n) = ((λ u. cc), empty-ManagerInv srcs n)

-- No stream of a fresh manager has handed on anything.
position-empty : (n j : ℕ) → position (replicate n zero_state) j ≡ 0
unfolding position state_of
position-empty zero j = refl
position-empty (suc n) j = position-empty n j

known_at-empty : (n j p : ℕ) → known_at (replicate n zero_state) j p ≡ false
unfolding known_at state_of
known_at-empty zero j p = refl
known_at-empty (suc n) j p = known_at-empty n j p

-- On a fresh manager, whatever the order, the overlaps, the repetitions and the losses of the
-- calls: the bytes handed on for a stream are a prefix of the stream's source, without a gap, up to
-- the stream's position; and the stream knows a byte at the end, as handed on or as waiting in a
-- segment, exactly if a call that succeeded carried it. The hypotheses: each call's bytes are those
-- of its stream's source at its offset, and end below 2^32, where `next_offset` would wrap.
pub run_prefix :
    (srcs : ℕ → ℕ → ℕ) (j : ℕ) (cs : List Call)
    → All (FromSource srcs) cs
    → let (m, received) = run j manager_init cs in
      (received ≡ slice (srcs j) 0 (position m j))
      × ((p : ℕ) → known_at m j p ≡ taken j manager_init cs p)
unfolding manager_init
run_prefix srcs j cs h =
    let inv = empty-ManagerInv srcs max_streams in
    let (e, p) = run-Received srcs j cs manager_init inv h in
    let z = position-empty max_streams j in
    (
      e ∙ slice_eq (srcs j) _ 0 _ _ z (omega (arith, z, p)),
      λ q. ground (arith, run-known srcs j cs manager_init q inv h, known_at-empty max_streams j q),
    )
