-- ===== src/Database/Tests.antt =====
-- The session table at concrete inputs.
use ott_quic.Common.{◌≡◌, refl, true, none, some, [], ◌∷◌, ltb, if◌then◌else◌}
use ott_quic.Text.{codes, same_exact}
use ott_quic.Database.{
  Tables, has_user, has_session, live_row, without_id, unexpired, db_create_session, db_get_session,
  db_delete_session, db_delete_expired_sessions,
}
use ott_quic.Database.Sessions.{later, added, db_get_session-created}

abbrev tables : Tables
tables = record {
  now = 50;
  users = record { id = 7; username = codes "ann"; password_hash = codes "p" } ∷ [];
  sessions = record { user_id = 7; session_id = codes "x"; expires_at = 50 } ∷ [];
}

created_y : db_create_session tables 7 (codes "y") 5 ≡ some (added tables 7 (codes "y") 5)
unfolding db_create_session has_user has_session same_exact
created_y = refl

-- A session that is over keeps its id until it is deleted, and a user must exist.
refused_x : db_create_session tables 7 (codes "x") 5 ≡ none
unfolding db_create_session has_user has_session same_exact
refused_x = refl

refused_user : db_create_session tables 8 (codes "y") 5 ≡ none
unfolding db_create_session has_user has_session same_exact
refused_user = refl

-- The session "x" is over, and both ways of deleting remove it.
over_x : db_get_session tables (codes "x") ≡ none
unfolding db_get_session live_row same_exact
over_x = refl

expired_x : db_delete_expired_sessions tables ≡ some (record tables { sessions = [] })
unfolding db_delete_expired_sessions unexpired
expired_x = refl

deleted_x : db_delete_session tables (codes "x") ≡ (true, record tables { sessions = [] })
unfolding db_delete_session without_id same_exact
deleted_x = refl

db_get_session-created_example :
    db_get_session (later 3 (added tables 7 (codes "y") 5)) (codes "y") ≡ (
      if ltb 3 5
      then some (record { user_id = 7; session_id = codes "y"; expires_at = 55 })
      else none)
db_get_session-created_example =
    db_get_session-created tables (added tables 7 (codes "y") 5) 7 (codes "y") 5 3 created_y
