-- ===== src/Samples/Tables.antt =====
-- Tables with one user, number 7, "ann" with the password "p", and the session "x" that ends in ten
-- seconds.
use ott_quic.Common.{[], ◌∷◌}
use ott_quic.Text.{codes, same_text}
use ott_quic.Database.{Tables}
use ott_quic.Database.Sessions.{sqlite, sqlite-IsTable}
use ott_quic.Session.Login.{Database, IsTable}

abbrev pub ann_tables : Tables
ann_tables = record {
  now = 100;
  users = record { id = 7; username = codes "ann"; password_hash = codes "p" } ∷ [];
  sessions = record { user_id = 7; session_id = codes "x"; expires_at = 110 } ∷ [];
}

abbrev pub one_user : Database
one_user = sqlite same_text

pub one_user-IsTable : IsTable one_user
one_user-IsTable = sqlite-IsTable same_text
