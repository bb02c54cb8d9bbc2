-- ===== src/Api/Guard.antt =====
-- Only administrators reach what the handlers of Api/Admin.antt protect.
use ott_quic.Common.{ℕ, ◌+◌, ◌≡◌, ◌⊎◌, true, none, some, List, [], ◌∷◌, ◌++◌, if◌then◌else◌}
use ott_quic.Text.{Text, codes, same_text, is_positive, cut}
use ott_quic.Http.{HttpRequest}
use ott_quic.Session.{extract_from_headers, session_id_len}
use ott_quic.Session.Login.{validate_and_extend, session_ttl_seconds}
use ott_quic.Api.Backend.{Backend, Profile, Effect, unlinked, commanded, VideoPaths, VideoRow}
use ott_quic.Api.Reply.{reply, refuse, text_plain}
use ott_quic.Api.Json.{extract_string}
use ott_quic.Api.Account.{Outcome, bad_request, internal_error, status_ok}
use ott_quic.Api.Admin.{is_admin_user, forbidden, list_videos, list_reply, requested_video}

-- What happens to a path, if there is one.
abbrev pub step : (Text → Effect) → Text → List Effect
step f [] = []
step f (c ∷ path) = f (c ∷ path) ∷ []

-- The files of a video are unlinked, and the directory of its segments is removed.
abbrev pub removal : VideoPaths → List Effect
removal v =
    step unlinked v.file_path
    ++ (step unlinked v.thumbnail_path
        ++ step (λ path. commanded (cut 512 (codes "rm -rf " ++ path))) v.segment_path)

-- A field of a body, or the empty text.
abbrev pub field : Text → Text → ℕ → Text
field body key size = elim (extract_string body key size) [ none ↦ [] | some text ↦ text ]

module _ (b : Backend) where
  -- The request carries a session id, this is a session, and its user is an administrator in the
  -- tables with the session extended.
  pub record IsAdmin (store : b.sessions.Store) (req : HttpRequest) (store' : b.sessions.Store)
      : Type 0 where
    pub sid : Text
    pub user : ℕ
    pub profile : Profile
    pub carried : extract_from_headers req.headers (session_id_len + 1) ≡ some sid
    pub valid : validate_and_extend b.sessions store sid session_ttl_seconds ≡ (some user, store')
    pub positive : is_positive user ≡ true
    pub found : b.get_user_by_id store' user ≡ some profile
    pub admin : same_text (profile.role) (codes "admin") ≡ true

  -- The video that the body names is deleted and its files are removed; without a number of a video,
  -- or without the video, nothing is done.
  abbrev pub Deletes : Text → b.sessions.Store → Outcome b → Type 0
  Deletes body s o =
      ((requested_video body ≡ none) × (o ≡ (bad_request (codes "invalid-video-id"), s, [])))
      ⊎ ((id : ℕ) × (requested_video body ≡ some id)
          × (b.get_video_by_id s id ≡ none)
          × (o ≡ (refuse (codes "HTTP/1.1 404 Not Found\r\n") (codes "video-not-found"), s, [])))
      ⊎ ((id : ℕ) × (v : VideoPaths) × (requested_video body ≡ some id)
          × (b.get_video_by_id s id ≡ some v)
          × (o ≡ (
            reply status_ok text_plain (codes "deleted"),
            b.delete_video_by_id s id,
            removal v,
          )))

  -- The title and the description of the video that the body names are those of the body.
  abbrev pub Updates : Text → b.sessions.Store → Outcome b → Type 0
  Updates body s o =
      ((requested_video body ≡ none) × (o ≡ (bad_request (codes "invalid-video-id"), s, [])))
      ⊎ ((id : ℕ) × (requested_video body ≡ some id)
          × (let r =
                b.update_video_metadata s id (field body (codes "title") 128)
                  (field body (codes "description") 512) in
              o ≡ (
                if r.0
                    then reply status_ok text_plain (codes "updated")
                    else internal_error (codes "update-failed"),
                r.1,
                [],
              )))

  -- The rows of the table are listed, and nothing is changed.
  abbrev pub Lists : b.sessions.Store → Outcome b → Type 0
  Lists s o =
      ((b.list_videos s ≡ none) × (o ≡ (internal_error (codes "db-error"), s, [])))
      ⊎ ((rows : List VideoRow) × (b.list_videos s ≡ some rows) × (o ≡ (list_reply rows, s, [])))

  -- Without the session of an administrator the request was refused with "admin-required", and
  -- nothing was done but what the test of the session does; otherwise `Done` holds of the tables
  -- with the session extended and of the outcome.
  abbrev pub Guarded :
      (b.sessions.Store → Outcome b → Type 0) → b.sessions.Store → HttpRequest → Outcome b → Type 0
  Guarded Done store req o =
      (((s : b.sessions.Store) → ¬ IsAdmin store req s)
        × (o ≡ (forbidden, (is_admin_user b store req).1, [])))
      ⊎ ((s : b.sessions.Store) × IsAdmin store req s × Done s o)
