-- ===== src/Engine/Invariant.antt =====
-- What holds of the two tables after every call of the engine.
use ott_quic.Common.{
  ℕ, zero, suc, ◌≡◌, ◌⊎◌, refl, ◌∙◌, Bool, true, false, ◌||◌, not, none, some, List, [], ◌∷◌, ltb,
  length, length-set, get_elem?, set, All, inl, inr, arith,
}
use ott_quic.Engine.State.{
  Entry, PendingEntry, Engine, is_connecting, is_connected, max_connections, max_pending,
  max_retries,
}
use ott_quic.Engine.Table.{find_entry}

-- An entry in use is of a connection that is connecting or connected.
abbrev pub live : Entry → Bool
live c = not c.in_use || (is_connecting c.state || is_connected c.state)

-- No two entries in use are of the same connection.
abbrev pub Distinct : List Entry → Type 0
Distinct [] = Unit
Distinct (c ∷ cs) = ((c.in_use ≡ false) ⊎ (find_entry cs c.connection_id ≡ none)) × Distinct cs

abbrev pub Live : List Entry → Type 0
Live = All (λ (c : Entry). live c ≡ true)

-- A table of connections in order.
pub record TableInv (cs : List Entry) : Type 0 where
  pub size : length cs ≡ max_connections
  pub states : Live cs
  pub distinct : Distinct cs

-- An entry that waits for an acknowledgement has been sent again less than `max_retries` times.
abbrev pub trying : PendingEntry → Bool
trying p = not p.in_use || ltb p.retries max_retries

abbrev pub Trying : List PendingEntry → Type 0
Trying = All (λ (p : PendingEntry). trying p ≡ true)

pub record PendingInv (ps : List PendingEntry) : Type 0 where
  pub size : length ps ≡ max_pending
  pub retrying : Trying ps

pub record EngineInv (engine : Engine) : Type 0 where
  pub table : TableInv engine.connections
  pub waiting : PendingInv engine.pending

-- An entry changes without taking a new connection up.
abbrev pub Keeps : Entry → Entry → Type 0
Keeps c c' = (c'.in_use ≡ false) ⊎ ((c'.in_use ≡ c.in_use) × (c'.connection_id ≡ c.connection_id))

pub find_entry-set-none :
    (cs : List Entry) (i id : ℕ) (c c' : Entry)
    → get_elem? cs i ≡ some c
    → Keeps c c'
    → find_entry cs id ≡ none
    → find_entry (set cs i c') id ≡ none
unfolding find_entry
find_entry-set-none [] i id c c' at k n = refl
find_entry-set-none (x ∷ cs) zero id c c' at k n = ground arith
find_entry-set-none (x ∷ cs) (suc i) id c c' at k n =
    ground (arith, find_entry-set-none cs i id c c' at k)

pub set-Distinct :
    (cs : List Entry) (i : ℕ) (c c' : Entry)
    → get_elem? cs i ≡ some c
    → Keeps c c'
    → Distinct cs
    → Distinct (set cs i c')
unfolding find_entry
set-Distinct [] i c c' at k h = tt
set-Distinct (x ∷ cs) zero c c' at k (a, h) = (ground arith, h)
set-Distinct (x ∷ cs) (suc i) c c' at k (a, h) = (
  elim a [ inl e ↦ inl e | inr n ↦ inr (find_entry-set-none cs i _ c c' at k n) ],
  set-Distinct cs i c c' at k h,
)

pub set-Live :
    (cs : List Entry) (i : ℕ) (c' : Entry) → live c' ≡ true → Live cs → Live (set cs i c')
set-Live [] i c' l h = tt
set-Live (x ∷ cs) zero c' l (a, h) = (l, h)
set-Live (x ∷ cs) (suc i) c' l (a, h) = (a, set-Live cs i c' l h)

-- Writing an entry back that keeps its connection or gives it up.
pub set-TableInv :
    (cs : List Entry) (i : ℕ) (c c' : Entry)
    → get_elem? cs i ≡ some c
    → Keeps c c'
    → live c' ≡ true
    → TableInv cs
    → TableInv (set cs i c')
set-TableInv cs i c c' at k l inv = record {
  size = length-set cs i c' ∙ inv.size;
  states = set-Live cs i c' l inv.states;
  distinct = set-Distinct cs i c c' at k inv.distinct;
}

pub get_elem?-Live :
    (cs : List Entry) (i : ℕ) (c : Entry) → get_elem? cs i ≡ some c → Live cs → live c ≡ true
get_elem?-Live [] i c at h = cc
get_elem?-Live (x ∷ cs) zero c at (a, h) = ground arith
get_elem?-Live (x ∷ cs) (suc i) c at (a, h) = get_elem?-Live cs i c at h
