-- ===== src/Engine/Tables.antt =====
-- The loops over the two tables keep their invariants.
use ott_quic.Common.{
  ℕ, suc, ◌≡◌, refl, ap, ◌∙◌, Bool, true, false, none, List, [], ◌∷◌, map, if◌then◌else◌, length,
  Bool-cases, inl, inr, arith,
}
use ott_quic.Engine.State.{Entry, PendingEntry, Env}
use ott_quic.Engine.Pending.{
  put_pending, ack_loop, awaits, clear_loop, retransmit_loop, retransmit_entry, resent,
}
use ott_quic.Engine.Table.{find_entry, close_entry, cleanup_loop, timed_out}
use ott_quic.Engine.Invariant.{Distinct, Live, TableInv, trying, Trying, PendingInv}

-- The connections that cleanup leaves.
abbrev pub kept : ℕ → Entry → Entry
kept now c = if timed_out now c then close_entry c else c

pub cleanup_loop-connections :
    (now : ℕ) (cs : List Entry) (ps : List PendingEntry) (n : ℕ)
    → (cleanup_loop now cs ps n).0 ≡ map (kept now) cs
unfolding cleanup_loop
cleanup_loop-connections now [] ps n = refl
cleanup_loop-connections now (c ∷ cs) ps n =
    ap (λ t. kept now c ∷ t) (cleanup_loop-connections now cs _ _)

length-kept : (now : ℕ) (cs : List Entry) → length (map (kept now) cs) ≡ length cs
length-kept now [] = refl
length-kept now (c ∷ cs) = ap suc (length-kept now cs)

find_entry-kept :
    (now id : ℕ) (cs : List Entry)
    → find_entry cs id ≡ none
    → find_entry (map (kept now) cs) id ≡ none
unfolding find_entry close_entry
find_entry-kept now id [] h = refl
find_entry-kept now id (c ∷ cs) h = ground (arith, find_entry-kept now id cs)

kept-Distinct : (now : ℕ) (cs : List Entry) → Distinct cs → Distinct (map (kept now) cs)
unfolding close_entry
kept-Distinct now [] h = tt
kept-Distinct now (c ∷ cs) (a, h) = (
  elim (Bool-cases (timed_out now c)) [
    | inl e ↦ rw e (inl refl)
    | inr e ↦ rw e (elim a [ inl u ↦ inl u | inr n ↦ inr (find_entry-kept now _ cs n) ])
  ],
  kept-Distinct now cs h,
)

kept-Live : (now : ℕ) (cs : List Entry) → Live cs → Live (map (kept now) cs)
unfolding close_entry
kept-Live now [] h = tt
kept-Live now (c ∷ cs) (a, h) = (ground arith, kept-Live now cs h)

pub cleanup_loop-TableInv :
    (now : ℕ) (cs : List Entry) (ps : List PendingEntry) (n : ℕ)
    → TableInv cs
    → TableInv (cleanup_loop now cs ps n).0
cleanup_loop-TableInv now cs ps n inv = rw (cleanup_loop-connections now cs ps n) (record {
  size = length-kept now cs ∙ inv.size;
  states = kept-Live now cs inv.states;
  distinct = kept-Distinct now cs inv.distinct;
})

length-clear_loop : (id : ℕ) (ps : List PendingEntry) → length (clear_loop id ps) ≡ length ps
unfolding clear_loop
length-clear_loop id [] = refl
length-clear_loop id (p ∷ ps) = ap suc (length-clear_loop id ps)

clear_loop-Trying : (id : ℕ) (ps : List PendingEntry) → Trying ps → Trying (clear_loop id ps)
unfolding clear_loop
clear_loop-Trying id [] h = tt
clear_loop-Trying id (p ∷ ps) (a, h) = (ground arith, clear_loop-Trying id ps h)

pub clear_loop-PendingInv :
    (id : ℕ) (ps : List PendingEntry) → PendingInv ps → PendingInv (clear_loop id ps)
clear_loop-PendingInv id ps inv = record {
  size = length-clear_loop id ps ∙ inv.size;
  retrying = clear_loop-Trying id ps inv.retrying;
}

pub cleanup_loop-PendingInv :
    (now : ℕ) (cs : List Entry) (ps : List PendingEntry) (n : ℕ)
    → PendingInv ps
    → PendingInv (cleanup_loop now cs ps n).1
unfolding cleanup_loop
cleanup_loop-PendingInv now [] ps n inv = inv
cleanup_loop-PendingInv now (c ∷ cs) ps n inv =
    cleanup_loop-PendingInv now cs _ _ (elim (Bool-cases (timed_out now c)) [
      | inl e ↦ rw e (clear_loop-PendingInv c.connection_id ps inv)
      | inr e ↦ rw e inv
    ])

length-ack_loop :
    (id number : ℕ) (ps : List PendingEntry) → length (ack_loop id number ps) ≡ length ps
unfolding ack_loop
length-ack_loop id number [] = refl
length-ack_loop id number (p ∷ ps) = ground (arith, length-ack_loop id number ps)

ack_loop-Trying :
    (id number : ℕ) (ps : List PendingEntry) → Trying ps → Trying (ack_loop id number ps)
unfolding ack_loop
ack_loop-Trying id number [] h = tt
ack_loop-Trying id number (p ∷ ps) (a, h) = elim (Bool-cases (awaits id number p)) [
  | inl e ↦ rw e (refl, h)
  | inr e ↦ rw e (a, ack_loop-Trying id number ps h)
]

pub ack_loop-PendingInv :
    (id number : ℕ) (ps : List PendingEntry) → PendingInv ps → PendingInv (ack_loop id number ps)
ack_loop-PendingInv id number ps inv = record {
  size = length-ack_loop id number ps ∙ inv.size;
  retrying = ack_loop-Trying id number ps inv.retrying;
}

length-put_pending :
    (p' : PendingEntry) (ps : List PendingEntry) → length (put_pending p' ps) ≡ length ps
unfolding put_pending
length-put_pending p' [] = refl
length-put_pending p' (p ∷ ps) = ground (arith, length-put_pending p' ps)

put_pending-Trying :
    (p' : PendingEntry) (ps : List PendingEntry)
    → trying p' ≡ true
    → Trying ps
    → Trying (put_pending p' ps)
unfolding put_pending
put_pending-Trying p' [] t h = tt
put_pending-Trying p' (p ∷ ps) t (a, h) = elim (Bool-cases p.in_use) [
  | inl e ↦ rw e (ground arith, put_pending-Trying p' ps t h)
  | inr e ↦ rw e (t, h)
]

pub put_pending-PendingInv :
    (p' : PendingEntry) (ps : List PendingEntry)
    → trying p' ≡ true
    → PendingInv ps
    → PendingInv (put_pending p' ps)
put_pending-PendingInv p' ps t inv = record {
  size = length-put_pending p' ps ∙ inv.size;
  retrying = put_pending-Trying p' ps t inv.retrying;
}

resent-Trying : (now : ℕ) (done : Bool) (p : PendingEntry) → trying (resent now done p) ≡ true
unfolding resent
resent-Trying now true p = ground arith
resent-Trying now false p = refl

retransmit_entry-Trying :
    (env : Env) (cs : List Entry) (p : PendingEntry)
    → trying p ≡ true
    → trying (retransmit_entry env cs p).0 ≡ true
unfolding retransmit_entry
retransmit_entry-Trying env cs p h = ground (arith, resent-Trying env.now)

retransmit_loop-Trying :
    (env : Env) (cs : List Entry) (ps : List PendingEntry) (n : ℕ)
    → Trying ps
    → Trying (retransmit_loop env cs ps n).0
unfolding retransmit_loop
retransmit_loop-Trying env cs [] n h = tt
retransmit_loop-Trying env cs (p ∷ ps) n (a, h) =
    (retransmit_entry-Trying env cs p a, retransmit_loop-Trying env cs ps _ h)

length-retransmit_loop :
    (env : Env) (cs : List Entry) (ps : List PendingEntry) (n : ℕ)
    → length (retransmit_loop env cs ps n).0 ≡ length ps
unfolding retransmit_loop
length-retransmit_loop env cs [] n = refl
length-retransmit_loop env cs (p ∷ ps) n = ap suc (length-retransmit_loop env cs ps _)

pub retransmit_loop-PendingInv :
    (env : Env) (cs : List Entry) (ps : List PendingEntry) (n : ℕ)
    → PendingInv ps
    → PendingInv (retransmit_loop env cs ps n).0
retransmit_loop-PendingInv env cs ps n inv = record {
  size = length-retransmit_loop env cs ps n ∙ inv.size;
  retrying = retransmit_loop-Trying env cs ps n inv.retrying;
}
