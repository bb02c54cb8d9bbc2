-- ===== src/Database/Sessions.antt =====
-- The session table of src/db/database.c is what src/auth/session.c needs of it.
use ott_quic.Common.{
  ℕ, ◌+◌, ◌≡◌, ◌<◌, refl, ap, sym, ◌∙◌, Bool, true, false, not, ◌&&◌, Option, none, some, List, [],
  ◌∷◌, ltb, if◌then◌else◌, Bool-cases, inl, inr, arith,
}
use mathlib.Core.Path.{subst}
use ott_quic.Text.{Text, same_exact}
use ott_quic.Database.{
  Tables, SessionRow, has_user, has_session, live_row, unexpired, db_get_user_by_username,
  db_create_session, db_get_session, db_delete_session, db_delete_expired_sessions,
}
use ott_quic.Session.Login.{Database, IsTable}

-- Of the row that was found, the user and the end.
abbrev pub user_of : Option SessionRow → Option ℕ
user_of none = none
user_of (some s) = some s.user_id

abbrev pub end_of : Option SessionRow → Option ℕ
end_of none = none
end_of (some s) = some s.expires_at

-- The calls as session.c sees them, with any test of passwords.
abbrev pub sqlite : (Text → Text → Bool) → Database
sqlite verify = record {
  Store = Tables;
  now = λ (t : Tables). t.now;
  get_user = db_get_user_by_username;
  get_session = λ (t : Tables) (id : Text). user_of (db_get_session t id);
  expires_at = λ (t : Tables) (id : Text). end_of (db_get_session t id);
  create_session = db_create_session;
  delete_session = db_delete_session;
  delete_expired = db_delete_expired_sessions;
  verify_password = verify;
}

same_exact_refl : (t : Text) → same_exact t t ≡ true
unfolding same_exact
same_exact_refl [] = refl
same_exact_refl (c ∷ t) = ground (arith, same_exact_refl t)

-- The tables some seconds later.
abbrev pub later : ℕ → Tables → Tables
later seconds t = record t { now = t.now + seconds }

-- What `db_create_session` leaves if it succeeds.
abbrev pub added : Tables → ℕ → Text → ℕ → Tables
added t user id ttl = record t {
  sessions = record { user_id = user; session_id = id; expires_at = t.now + ttl } ∷ t.sessions;
}

db_create_session-added :
    (t t' : Tables) (user : ℕ) (id : Text) (ttl : ℕ)
    → db_create_session t user id ttl ≡ some t'
    → (has_session t.sessions id ≡ false) × (added t user id ttl ≡ t')
unfolding db_create_session
db_create_session-added t t' user id ttl e =
    elim (Bool-cases (has_user t.users user && not (has_session t.sessions id))) [
      | inl y ↦
          let s : ◌≡◌ {A = Option Tables} (some (added t user id ttl)) (some t') =
            rw (y, db_create_session) at e in
          (ground arith, cc)
      | inr y ↦
          absurd
            (let s : ◌≡◌ {A = Option Tables} none (some t') = rw (y, db_create_session) at e in cc)
    ]

-- An id that no row has is found in no row.
live_row-none :
    (now : ℕ) (sessions : List SessionRow) (id : Text)
    → has_session sessions id ≡ false
    → live_row now sessions id ≡ none
unfolding live_row has_session
live_row-none now [] id h = refl
live_row-none now (s ∷ sessions) id h =
    let first : same_exact s.session_id id ≡ false = ground arith in
    let rest : has_session sessions id ≡ false = ground arith in
    rw (first, live_row) (live_row-none now sessions id rest)

-- A session that `db_create_session` made for `ttl` seconds is found by `db_get_session`, with its
-- user and its end, as long as less than `ttl` seconds have passed, and not afterwards.
pub db_get_session-created :
    (t t' : Tables) (user : ℕ) (id : Text) (ttl seconds : ℕ)
    → db_create_session t user id ttl ≡ some t'
    → db_get_session (later seconds t') id ≡ (
        if ltb seconds ttl
        then some (record { user_id = user; session_id = id; expires_at = t.now + ttl })
        else none)
unfolding db_get_session live_row
db_get_session-created t t' user id ttl seconds e =
    let (fresh, same) = db_create_session-added t t' user id ttl e in
    subst
      (λ (u : Tables). db_get_session (later seconds u) id ≡ (
        if ltb seconds ttl
        then some (record { user_id = user; session_id = id; expires_at = t.now + ttl })
        else none))
      same
      (elim (Bool-cases (ltb seconds ttl)) [
        | inl y ↦
            let alive : ltb (t.now + seconds) (t.now + ttl) ≡ true = ground arith in
            rw (y, same_exact_refl id, alive) refl
        | inr y ↦
            let over : ltb (t.now + seconds) (t.now + ttl) ≡ false = ground arith in
            rw (y, same_exact_refl id, over) (live_row-none (t.now + seconds) t.sessions id fresh)
      ])

created_now :
    (t t' : Tables) (user : ℕ) (id : Text) (ttl : ℕ)
    → 0 < ttl
    → db_create_session t user id ttl ≡ some t'
    → db_get_session t' id
      ≡ some (record { user_id = user; session_id = id; expires_at = t.now + ttl })
unfolding db_get_session
created_now t t' user id ttl pos e =
    let alive : ltb 0 ttl ≡ true = ground arith in
    let found = db_get_session-created t t' user id ttl 0 e in
    ap (λ (n : ℕ). live_row n t'.sessions id) {x = t'.now} {y = t'.now + 0} (omega arith)
    ∙ (rw alive at found)

-- The tables of database.c keep the promises that session.c relies on.
pub sqlite-IsTable : (verify : Text → Text → Bool) → IsTable (sqlite verify)
unfolding db_delete_session db_delete_expired_sessions
sqlite-IsTable verify = record {
  created = λ (t t' : Tables) (user : ℕ) (id : Text) (ttl : ℕ) pos e.
      let n = created_now t t' user id ttl pos e in (ap user_of n, ap end_of n);
  now_deleted = λ t id. refl;
  now_expired = λ (t t' : Tables) e.
      let s : record t { sessions = unexpired t.now t.sessions } ≡ t' = cc in
      ap (λ (u : Tables). u.now) (sym s);
}
