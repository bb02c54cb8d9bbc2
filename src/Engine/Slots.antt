-- ===== src/Engine/Slots.antt =====
-- The slots of the connection table: the one that is found and the one that is free.
use ott_quic.Common.{
  ℕ, zero, suc, ◌≡◌, refl, ◌∙◌, true, false, none, some, List, [], ◌∷◌, ◌==◌, length-set, get_elem?,
  set, Bool-cases, Option-cases, inl, inr, arith,
}
use ott_quic.Engine.State.{Entry}
use ott_quic.Engine.Table.{find_entry, add_connection}
use ott_quic.Engine.Invariant.{live, Distinct, TableInv, set-Live}

-- What is found is an entry in use of the connection.
pub find_entry-some :
    (cs : List Entry) (id i : ℕ)
    → find_entry cs id ≡ some i
    → (c : Entry) × (get_elem? cs i ≡ some c) × (c.in_use ≡ true) × (c.connection_id ≡ id)
unfolding find_entry
find_entry-some [] id i h = cc
find_entry-some (c ∷ cs) id zero h = (c, refl, ground arith, ground arith)
find_entry-some (c ∷ cs) id (suc i) h = find_entry-some cs id i (ground arith)

-- A new entry goes into a slot that is free.
pub add_connection-some :
    (entry : Entry) (cs cs' : List Entry)
    → add_connection entry cs ≡ some cs'
    → (i : ℕ) × (c : Entry) × (get_elem? cs i ≡ some c)
      × (c.in_use ≡ false)
      × (cs' ≡ set cs i entry)
unfolding add_connection
add_connection-some entry [] cs' e = cc
add_connection-some entry (c ∷ cs) cs' e = elim (Bool-cases c.in_use) [
  | inr u ↦ (0, c, refl, u, ground arith)
  | inl u ↦ elim (Option-cases (add_connection entry cs)) [
    | inl n ↦ absurd (ground arith)
    | inr (cs1, s) ↦
        let (i, c1, at, free, eq) = add_connection-some entry cs cs1 s in
        (suc i, c1, at, free, ground arith)
  ]
]

find_entry-set_ne :
    (cs : List Entry) (i id : ℕ) (entry : Entry)
    → (entry.connection_id == id) ≡ false
    → find_entry cs id ≡ none
    → find_entry (set cs i entry) id ≡ none
unfolding find_entry
find_entry-set_ne [] i id entry ne n = refl
find_entry-set_ne (c ∷ cs) zero id entry ne n = ground arith
find_entry-set_ne (c ∷ cs) (suc i) id entry ne n =
    ground (arith, find_entry-set_ne cs i id entry ne)

set_free-Distinct :
    (cs : List Entry) (i : ℕ) (entry : Entry)
    → find_entry cs entry.connection_id ≡ none
    → Distinct cs
    → Distinct (set cs i entry)
unfolding find_entry
set_free-Distinct [] i entry n h = tt
set_free-Distinct (c ∷ cs) zero entry n (a, h) = (inr (ground arith), h)
set_free-Distinct (c ∷ cs) (suc i) entry n (a, h) = (
  elim (Bool-cases c.in_use) [
    | inr u ↦ inl u
    | inl u ↦ elim a [
      | inl f ↦ inl f
      | inr m ↦ inr (find_entry-set_ne cs i _ entry (ground arith) m)
    ]
  ],
  set_free-Distinct cs i entry (ground arith) h,
)

-- A connection that is in no slot can be put into any.
pub add_connection-TableInv :
    (entry : Entry) (cs cs' : List Entry)
    → add_connection entry cs ≡ some cs'
    → find_entry cs entry.connection_id ≡ none
    → live entry ≡ true
    → TableInv cs
    → TableInv cs'
add_connection-TableInv entry cs cs' e n l inv =
    let (i, c, at, free, eq) = add_connection-some entry cs cs' e in
    rw eq (record {
      size = length-set cs i entry ∙ inv.size;
      states = set-Live cs i entry l inv.states;
      distinct = set_free-Distinct cs i entry n inv.distinct;
    })
