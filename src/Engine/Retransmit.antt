-- ===== src/Engine/Retransmit.antt =====
-- How often a packet is sent again.
use ott_quic.Common.{
  ℕ, suc, ◌&&◌, ◌≢◌, ◌⊎◌, ◌==◌, ◌++◌, Option, none, some, refl, ap, sym, ◌∙◌, inl, inr, Bool-cases,
  get_elem?, ◌+◌, ◌-◌, ◌≤◌, ◌≡◌, Bool, true, false, not, List, [], ◌∷◌, ltb, leb, if◌then◌else◌,
  length, length-append, All, arith,
}
use mathlib.Core.Path.{subst}
use ott_quic.Engine.State.{
  Entry, PendingEntry, Env, Event, sent, count_up, max_retries, retrans_timeout,
}
use ott_quic.Engine.Pending.{retransmit_loop, retransmit_entry, resent, addr_of, sent_all}
use ott_quic.Engine.Invariant.{trying, Trying}

-- How often the code may still send an entry.
abbrev pub left : PendingEntry → ℕ
left p = if p.in_use then max_retries - p.retries else 0

abbrev pub budget : List PendingEntry → ℕ
budget [] = 0
budget (p ∷ ps) = left p + budget ps

-- The entry is in use, and the time to wait for its acknowledgement is over.
abbrev pub due : ℕ → PendingEntry → Bool
due now p = p.in_use && not (ltb (now - p.last_sent) retrans_timeout)

left-resent :
    (now : ℕ) (done : Bool) (p : PendingEntry)
    → trying p ≡ true
    → p.in_use ≡ true
    → left (resent now done p) + 1 ≤ left p
unfolding resent
left-resent now true p t u = ground arith
left-resent now false p t u = ground arith

left-sent :
    (env : Env) (cs : List Entry) (p : PendingEntry)
    → trying p ≡ true
    → length (retransmit_entry env cs p).2 + left (retransmit_entry env cs p).0 ≤ left p
unfolding retransmit_entry
left-sent env cs p t = ground (arith, left-resent env.now)

-- What one pass of `quic_engine_retransmit_pending` sends is taken from the number of times the
-- entries may still be sent, for each entry in use 3 less the times it was sent again already. The
-- hypothesis: every entry in use was sent again less than 3 times.
pub length-retransmit_loop-budget :
    (env : Env) (cs : List Entry) (ps : List PendingEntry) (n : ℕ)
    → Trying ps
    → length (retransmit_loop env cs ps n).2 + budget (retransmit_loop env cs ps n).0 ≤ budget ps
unfolding retransmit_loop
length-retransmit_loop-budget env cs [] n h = omega arith
length-retransmit_loop-budget env cs (p ∷ ps) n (a, h) = omega (
  arith,
  left-sent env cs p a,
  length-retransmit_loop-budget env cs ps _ h,
  length-append (retransmit_entry env cs p).2 _,
)

-- A slot of the table is in use for a connection.
abbrev pub serves : ℕ → Entry → Bool
serves id c = c.in_use && (c.connection_id == id)

-- The connection has a slot in the table, with this address.
abbrev pub HasAddr : List Entry → ℕ → ℕ → Type 0
HasAddr cs id addr =
    (i : ℕ) × (c : Entry) × (get_elem? cs i ≡ some c) × (serves id c ≡ true) × (c.addr ≡ addr)

-- What a pass does with an entry: it leaves an entry that is not due, frees one whose connection is
-- not in the table, and gives the bytes of any other to `sendto` for the connection's address. If
-- all are sent, the entry is sent at this time, has one more retry, and is freed at the third;
-- otherwise it is freed.
pub data Handled (env : Env) (cs : List Entry) (p : PendingEntry)
    : PendingEntry → List Event → Type 0 where
  rests : due env.now p ≡ false → Handled env cs p p []
  freed :
      due env.now p ≡ true
      → All (λ (c : Entry). serves p.connection_id c ≡ false) cs
      → Handled env cs p (record p { in_use = false }) []
  repeated :
      (addr : ℕ)
      → due env.now p ≡ true
      → HasAddr cs p.connection_id addr
      → env.sendto addr p.buffer ≡ some (length p.buffer)
      → Handled env cs p
          (record p {
            last_sent = env.now;
            retries = p.retries + 1;
            in_use = ltb (p.retries + 1) max_retries;
          })
          (sent addr p.buffer ∷ [])
  failed :
      (addr : ℕ)
      → due env.now p ≡ true
      → HasAddr cs p.connection_id addr
      → env.sendto addr p.buffer ≢ some (length p.buffer)
      → Handled env cs p (record p { in_use = false }) (sent addr p.buffer ∷ [])

-- Every entry in turn, and what is sent for it.
abbrev pub AllHandled :
    Env → List Entry → List PendingEntry → List PendingEntry → List Event → Type 0
AllHandled env cs [] [] events = events ≡ []
AllHandled env cs [] (p' ∷ ps') events = ⊥
AllHandled env cs (p ∷ ps) [] events = ⊥
AllHandled env cs (p ∷ ps) (p' ∷ ps') events =
    (first : List Event) × (later : List Event) × (events ≡ first ++ later)
    × Handled env cs p p' first
    × AllHandled env cs ps ps' later

addr_of-cases :
    (cs : List Entry) (id : ℕ)
    → ((addr_of cs id ≡ none) × All (λ (c : Entry). serves id c ≡ false) cs)
      ⊎ ((addr : ℕ) × (addr_of cs id ≡ some addr) × HasAddr cs id addr)
unfolding addr_of
addr_of-cases [] id = inl (refl, tt)
addr_of-cases (c ∷ cs) id = elim (Bool-cases (serves id c)) [
  | inl e ↦ inr (c.addr, rw (e, addr_of) refl, (0, c, refl, e, refl))
  | inr e ↦ elim (addr_of-cases cs id) [
    | inl (n, all) ↦ inl (rw (e, addr_of) n, (e, all))
    | inr (addr, n, (i, d, at, s, a)) ↦ inr (addr, rw (e, addr_of) n, (suc i, d, at, s, a))
  ]
]

sent_all-cases :
    (result : Option ℕ) (n : ℕ)
    → ((sent_all result n ≡ true) × (result ≡ some n))
      ⊎ ((sent_all result n ≡ false) × (result ≢ some n))
sent_all-cases none n = inr (refl, λ e. cc)
sent_all-cases (some k) n = elim (Bool-cases (k == n)) [
  | inl e ↦ inl (e, ap (λ (m : ℕ). some m) {x = k} {y = n} (ground arith))
  | inr e ↦ inr (e, λ h. let same : k ≡ n = cc in let no_way : true ≡ false = ground arith in cc)
]

resting :
    (env : Env) (cs : List Entry) (p : PendingEntry)
    → due env.now p ≡ false
    → retransmit_entry env cs p ≡ (p, false, [])
unfolding retransmit_entry
resting env cs p d = ground arith

unserved :
    (env : Env) (cs : List Entry) (p : PendingEntry)
    → due env.now p ≡ true
    → addr_of cs p.connection_id ≡ none
    → retransmit_entry env cs p ≡ (record p { in_use = false }, false, [])
unfolding retransmit_entry
unserved env cs p d n = ground arith

served :
    (env : Env) (cs : List Entry) (p : PendingEntry) (addr : ℕ)
    → due env.now p ≡ true
    → addr_of cs p.connection_id ≡ some addr
    → let done = sent_all (env.sendto addr p.buffer) (length p.buffer) in
      retransmit_entry env cs p ≡ (resent env.now done p, done, sent addr p.buffer ∷ [])
unfolding retransmit_entry
served env cs p addr d n = ground arith

-- An entry that was sent once more.
abbrev pub again : ℕ → PendingEntry → PendingEntry
again now p = record p {
  last_sent = now;
  retries = p.retries + 1;
  in_use = ltb (p.retries + 1) max_retries;
}

resent_whole :
    (now : ℕ) (p : PendingEntry)
    → due now p ≡ true
    → (done : Bool) → done ≡ true
    → ◌≡◌ {A = PendingEntry × Bool} (resent now done p, done) (again now p, true)
unfolding resent
resent_whole now p d false e = absurd (cc)
resent_whole now p d true e =
    let used : (if leb max_retries (p.retries + 1) then false else p.in_use)
        ≡ ltb (p.retries + 1) max_retries =
      ground arith in
    ap (λ (b : Bool). (record p { last_sent = now; retries = p.retries + 1; in_use = b }, true))
      used

of_result :
    (env : Env) (cs : List Entry) (p p' : PendingEntry) (done : Bool) (events : List Event)
    → retransmit_entry env cs p ≡ (p', done, events)
    → Handled env cs p p' events
    → let r = retransmit_entry env cs p in Handled env cs p r.0 r.2
of_result env cs p p' done events e h =
    subst (λ (x : PendingEntry × Bool × List Event). Handled env cs p x.0 x.2) (sym e) h

retransmit_entry-Handled :
    (env : Env) (cs : List Entry) (p : PendingEntry)
    → let r = retransmit_entry env cs p in Handled env cs p r.0 r.2
unfolding resent
retransmit_entry-Handled env cs p = elim (Bool-cases (due env.now p)) [
  | inr d ↦ of_result env cs p p false [] (resting env cs p d) (rests d)
  | inl d ↦ elim (addr_of-cases cs p.connection_id) [
    | inl (n, all) ↦
        of_result env cs p (record p { in_use = false }) false [] (unserved env cs p d n)
          (freed d all)
    | inr (addr, n, has) ↦ elim (sent_all-cases (env.sendto addr p.buffer) (length p.buffer)) [
      | inl (whole, s) ↦
          of_result env cs p (again env.now p) true (sent addr p.buffer ∷ [])
            (served env cs p addr d n
              ∙ ap (λ (q : PendingEntry × Bool). (q.0, q.1, sent addr p.buffer ∷ []))
                  (resent_whole env.now p d _ whole))
            (repeated addr d has s)
      | inr (part, s) ↦
          of_result env cs p (record p { in_use = false }) false (sent addr p.buffer ∷ [])
            (served env cs p addr d n
              ∙ ap (λ (done : Bool). (resent env.now done p, done, sent addr p.buffer ∷ [])) part)
            (failed addr d has s)
    ]
  ]
]

-- One pass of `quic_engine_retransmit_pending` handles every entry once, in the order of the slots,
-- and sends nothing else: an entry that is not in use, or was sent less than a second ago, is left
-- alone; the bytes of every other entry whose connection is in the table are given to `sendto` for
-- the connection's address. If they are sent whole, the entry has one more retry and is freed at
-- the third; otherwise, or if the connection is not in the table, it is freed.
pub retransmit_loop-AllHandled :
    (env : Env) (cs : List Entry) (ps : List PendingEntry) (n : ℕ)
    → let r = retransmit_loop env cs ps n in AllHandled env cs ps r.0 r.2
unfolding retransmit_loop
retransmit_loop-AllHandled env cs [] n = refl
retransmit_loop-AllHandled env cs (p ∷ ps) n =
    let r = retransmit_entry env cs p in
    let later = retransmit_loop-AllHandled env cs ps (if r.1 then count_up n else n) in
    (r.2, _, refl, retransmit_entry-Handled env cs p, later)
