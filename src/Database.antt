-- ===== src/Database.antt =====
-- src/db/database.c: the table of the sessions and what a login reads of the table of the users, as
-- the SQL statements and the schema of `db_initialize_schema` say. A table is a list of rows; the
-- clock is the number of seconds that `datetime('now')` shows. The codes by which SQLite reports that
-- it is busy or out of space are not in these tables. The other tables are interfaces of the parts
-- that use them.
pub mod Sessions
mod Tests
use ott_quic.Common.{
  ℕ, ◌+◌, Bool, true, false, not, ◌&&◌, ◌||◌, Option, none, some, List, [], ◌∷◌, ltb, ◌==◌,
  if◌then◌else◌,
}
use ott_quic.Text.{Text, same_exact, cut}

-- A row of `users`, without the columns that a login does not read.
pub record UserRow : Type 0 where
  pub id : ℕ
  pub username : Text
  pub password_hash : Text

-- A row of `sessions`, without `id` and `created_at`, which the program does not read.
pub record SessionRow : Type 0 where
  pub user_id : ℕ
  pub session_id : Text
  pub expires_at : ℕ

pub record Tables : Type 0 where
  pub now : ℕ
  pub users : List UserRow
  pub sessions : List SessionRow

abbrev pub max_path : ℕ
max_path = 260

-- `REFERENCES users(id)`, with `PRAGMA foreign_keys = ON`.
unfoldable pub has_user : List UserRow → ℕ → Bool
has_user [] user = false
has_user (u ∷ users) user = (u.id == user) || has_user users user

-- `session_id TEXT NOT NULL UNIQUE`.
unfoldable pub has_session : List SessionRow → Text → Bool
has_session [] id = false
has_session (s ∷ sessions) id = same_exact s.session_id id || has_session sessions id

-- `SELECT … FROM sessions WHERE session_id = ? AND expires_at > datetime('now')`.
unfoldable pub live_row : ℕ → List SessionRow → Text → Option SessionRow
live_row now [] id = none
live_row now (s ∷ sessions) id =
    let later = live_row now sessions id in
    if same_exact s.session_id id && ltb now s.expires_at then some s else later

-- `DELETE FROM sessions WHERE session_id = ?`.
unfoldable pub without_id : Text → List SessionRow → List SessionRow
without_id id [] = []
without_id id (s ∷ sessions) =
    let rest = without_id id sessions in if same_exact s.session_id id then rest else s ∷ rest

-- `DELETE FROM sessions WHERE expires_at <= datetime('now')`.
unfoldable pub unexpired : ℕ → List SessionRow → List SessionRow
unexpired now [] = []
unexpired now (s ∷ sessions) =
    let rest = unexpired now sessions in if ltb now s.expires_at then s ∷ rest else rest

-- `SELECT … FROM users WHERE username = ?`: of the row, its id and the hash in its buffer.
unfoldable pub db_get_user_by_username : Tables → Text → Option (ℕ × Text)
db_get_user_by_username t username = first t.users
  where
    first : List UserRow → Option (ℕ × Text)
    first [] = none
    first (u ∷ users) =
        let later = first users in
        if same_exact u.username username then some (u.id, cut max_path u.password_hash) else later

-- `none` is a violated constraint; `ttl` is not negative.
unfoldable pub db_create_session : Tables → ℕ → Text → ℕ → Option Tables
unfolding has_user has_session
db_create_session t user id ttl =
    if has_user t.users user && not (has_session t.sessions id)
    then some (record t {
      sessions = record { user_id = user; session_id = id; expires_at = t.now + ttl } ∷ t.sessions;
    })
    else none

-- `none` is `SQLITE_NOTFOUND`.
unfoldable pub db_get_session : Tables → Text → Option SessionRow
unfolding live_row
db_get_session t id = live_row t.now t.sessions id

unfoldable pub db_delete_session : Tables → Text → Bool × Tables
unfolding without_id
db_delete_session t id = (true, record t { sessions = without_id id t.sessions })

unfoldable pub db_delete_expired_sessions : Tables → Option Tables
unfolding unexpired
db_delete_expired_sessions t = some (record t { sessions = unexpired t.now t.sessions })
