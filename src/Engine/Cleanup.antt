-- ===== src/Engine/Cleanup.antt =====
-- `quic_engine_cleanup_connections_locked` as a map over both tables.
use ott_quic.Common.{
  ℕ, ◌+◌, ◌<◌, ◌^◌, ◌≡◌, refl, sym, ap, ◌∙◌, Bool, true, false, ◌&&◌, ◌||◌, List, [], ◌∷◌, map,
  ◌==◌, if◌then◌else◌, All, u64, Bool-cases, inl, inr, arith,
}
use ott_quic.Engine.State.{Entry, PendingEntry, Engine, count_up}
use ott_quic.Engine.Pending.{clear_loop}
use ott_quic.Engine.Table.{close_entry, cleanup_connections, cleanup_loop, timed_out}
use ott_quic.Engine.Tables.{kept, cleanup_loop-connections}

-- How many entries time out.
abbrev pub gone : ℕ → List Entry → ℕ
gone now [] = 0
gone now (c ∷ cs) = (if timed_out now c then 1 else 0) + gone now cs

-- An entry of the connection times out.
abbrev pub over : ℕ → List Entry → ℕ → Bool
over now [] id = false
over now (c ∷ cs) id = (timed_out now c && (id == c.connection_id)) || over now cs id

abbrev pub freed : ℕ → List Entry → PendingEntry → PendingEntry
freed now cs p = if p.in_use && over now cs p.connection_id then record p { in_use = false } else p

cleanup_loop-count :
    (now : ℕ) (cs : List Entry) (ps : List PendingEntry) (n : ℕ)
    → n < 2 ^ 64
    → (cleanup_loop now cs ps n).2 ≡ u64 (n + gone now cs)
unfolding cleanup_loop
cleanup_loop-count now [] ps n h = omega arith
cleanup_loop-count now (c ∷ cs) ps n h = elim (Bool-cases (timed_out now c)) [
  | inl e ↦ rw e (
      omega (
        arith,
        cleanup_loop-count now cs (clear_loop c.connection_id ps) (count_up n) (omega arith),
      ))
  | inr e ↦ rw e (omega (arith, cleanup_loop-count now cs ps n h))
]

freed-nil : (now : ℕ) (ps : List PendingEntry) → map (freed now []) ps ≡ ps
freed-nil now [] = refl
freed-nil now (p ∷ ps) = ground (arith, freed-nil now ps)

freed_again :
    (now : ℕ) (c : Entry) (cs : List Entry) (p : PendingEntry)
    → timed_out now c ≡ true
    → freed now cs (
        if p.in_use && (p.connection_id == c.connection_id) then record p { in_use = false } else p)
      ≡ freed now (c ∷ cs) p
freed_again now c cs p e = elim (Bool-cases p.in_use) [
  | inr u ↦ rw u refl
  | inl u ↦ elim (Bool-cases (p.connection_id == c.connection_id)) [
    | inl s ↦ rw u (rw s (rw e refl))
    | inr s ↦ rw u (rw s (rw e refl))
  ]
]

freed-over :
    (now : ℕ) (c : Entry) (cs : List Entry) (ps : List PendingEntry)
    → timed_out now c ≡ true
    → map (freed now cs) (clear_loop c.connection_id ps) ≡ map (freed now (c ∷ cs)) ps
unfolding clear_loop
freed-over now c cs [] e = refl
freed-over now c cs (p ∷ ps) e =
    ap (λ t. t ∷ map (freed now cs) (clear_loop c.connection_id ps)) (freed_again now c cs p e)
    ∙ ap (λ t. freed now (c ∷ cs) p ∷ t) (freed-over now c cs ps e)

freed-kept :
    (now : ℕ) (c : Entry) (cs : List Entry) (ps : List PendingEntry)
    → timed_out now c ≡ false
    → map (freed now cs) ps ≡ map (freed now (c ∷ cs)) ps
freed-kept now c cs [] e = refl
freed-kept now c cs (p ∷ ps) e = rw e (ap (λ t. freed now cs p ∷ t) (freed-kept now c cs ps e))

cleanup_loop-pending :
    (now : ℕ) (cs : List Entry) (ps : List PendingEntry) (n : ℕ)
    → (cleanup_loop now cs ps n).1 ≡ map (freed now cs) ps
unfolding cleanup_loop
cleanup_loop-pending now [] ps n = sym (freed-nil now ps)
cleanup_loop-pending now (c ∷ cs) ps n = elim (Bool-cases (timed_out now c)) [
  | inl e ↦ rw e (cleanup_loop-pending now cs _ _ ∙ freed-over now c cs ps e)
  | inr e ↦ rw e (cleanup_loop-pending now cs _ _ ∙ freed-kept now c cs ps e)
]

kept-in_time :
    (now : ℕ) (cs : List Entry) → All (λ (c : Entry). timed_out now c ≡ false) (map (kept now) cs)
unfolding close_entry
kept-in_time now [] = tt
kept-in_time now (c ∷ cs) = (ground arith, kept-in_time now cs)

-- Cleanup closes exactly the connections that were silent for more than 30 seconds, frees exactly
-- the waiting packets of these, counts them, and leaves no connection that has timed out.
pub record Cleaned (now : ℕ) (engine engine' : Engine) : Type 0 where
  pub connections_eq : engine'.connections ≡ map (kept now) engine.connections
  pub in_time : All (λ (c : Entry). timed_out now c ≡ false) engine'.connections
  pub pending_eq : engine'.pending ≡ map (freed now engine.connections) engine.pending
  pub closed_eq :
      engine'.metrics.connections_closed
      ≡ u64 (engine.metrics.connections_closed + gone now engine.connections)

-- Cleanup closes exactly the connections that were silent for more than 30 seconds, so that none is
-- left that has timed out; it frees exactly the waiting packets of these, and counts them in
-- `connections_closed` modulo 2^64. The hypothesis: that counter is below 2^64 before.
pub cleanup_connections-Cleaned :
    (now : ℕ) (engine : Engine)
    → engine.metrics.connections_closed < 2 ^ 64
    → Cleaned now engine (cleanup_connections now engine)
unfolding cleanup_connections
cleanup_connections-Cleaned now engine h =
    let n = engine.metrics.connections_closed in
    let e = cleanup_loop-connections now engine.connections engine.pending n in
    record {
      connections_eq = e;
      in_time = rw e (kept-in_time now engine.connections);
      pending_eq = cleanup_loop-pending now engine.connections engine.pending n;
      closed_eq = cleanup_loop-count now engine.connections engine.pending n h;
    }
