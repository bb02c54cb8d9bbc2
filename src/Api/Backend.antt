-- ===== src/Api/Backend.antt =====
-- What the handlers use of the tables, of the files and of the system.
use ott_quic.Common.{ℕ, Bool, Option, List}
use ott_quic.Text.{Text}
use ott_quic.Session.Hash.{Bcrypt}
use ott_quic.Session.Login.{Database}

-- Of `db_user_t`, what the handlers read.
pub record Profile : Type 0 where
  pub nickname : Text
  pub role : Text

-- Of `db_video_t`, the paths.
pub record VideoPaths : Type 0 where
  pub file_path : Text
  pub thumbnail_path : Text
  pub segment_path : Text

-- A row of the list of videos.
pub record VideoRow : Type 0 where
  pub id : ℕ
  pub title : Text
  pub description : Text
  pub file_path : Text
  pub thumbnail_path : Text

-- The tables: those of the sessions, of the users and of the videos. `none` and `false` are a code
-- other than `SQLITE_OK`.
pub record Backend : Type 1 where
  pub sessions : Database
  pub get_user_by_username : sessions.Store → Text → Option Profile
  pub get_user_by_id : sessions.Store → ℕ → Option Profile
  pub create_user : sessions.Store → Text → Text → Text → Text → Option (ℕ × sessions.Store)
  pub get_video_by_id : sessions.Store → ℕ → Option VideoPaths
  pub delete_video_by_id : sessions.Store → ℕ → sessions.Store
  pub update_video_metadata : sessions.Store → ℕ → Text → Text → Bool × sessions.Store
  pub list_videos : sessions.Store → Option (List VideoRow)

-- What one call gets of the system: random bytes, bcrypt, and what stands in memory that was not
-- written.
pub record System : Type 0 where
  pub random : Option (List ℕ)
  pub bcrypt : Bcrypt
  pub stale : Text

-- The calls of `unlink` and `system`.
pub data Effect : Type 0 where
  unlinked : Text → Effect
  commanded : Text → Effect
