-- ===== src/Api/Tests.antt =====
-- Requests to the REST API.
use ott_quic.Common.{
  map, ℕ, ◌≤◌, ◌≡◌, ◌⊎◌, ◌↔◌, refl, true, some, none, List, [], ◌∷◌, ◌++◌, leb, if◌then◌else◌,
  length,
}
use ott_quic.Text.{Text, codes}
use ott_quic.Http.{HttpRequest}
use ott_quic.Samples.Wire.{byte_wise, byte_wise_stream}
use ott_quic.Samples.Tables.{one_user, one_user-IsTable, ann_tables}
use ott_quic.Database.{Tables}
use ott_quic.Api.Reply.{reply, send_response, build_cors, cors_lines, origin_of}
use ott_quic.Api.Backend.{Backend, System, Profile, VideoRow}
use ott_quic.Api.Account.{handle_signup, handle_login, status_ok, internal_error}
use ott_quic.Api.Admin.{row_text, list_reply}
use ott_quic.Api.Static.{handle_static_file, target, file, locate, below}
use ott_quic.Api.Sent.{Replied, send_response-Replied, build_cors_iff}
use ott_quic.Text.Rows.{separated}
use ott_quic.Api.Rows.{list_reply-separated}
use ott_quic.Api.Paths.{LooksInside, handle_static_file-LooksInside}
use ott_quic.Api.SignUp.{IsRefusal, Joined, handle_signup-Joined}
use ott_quic.Api.LogIn.{Entered, handle_login-Entered}

-- The one user is an administrator, and there is one video.
abbrev admins : Profile
admins = record { nickname = []; role = codes "admin" }

abbrev one_admin : Backend
one_admin = record {
  sessions = one_user;
  get_user_by_username = λ (store : Tables) (name : Text). none;
  get_user_by_id = λ (store : Tables) (id : ℕ). some admins;
  create_user = λ (store : Tables) (name nickname hash role : Text). some (7, store);
  get_video_by_id = λ (store : Tables) (id : ℕ). some (record {
    file_path = codes "data/a.mp4";
    thumbnail_path = [];
    segment_path = codes "data/a";
  });
  delete_video_by_id = λ (store : Tables) (id : ℕ). store;
  update_video_metadata = λ (store : Tables) (id : ℕ) (title description : Text). (true, store);
  list_videos = λ (store : Tables). some [];
}

abbrev sample_system : System
sample_system = record {
  random = some (1 ∷ 255 ∷ []);
  bcrypt = record {
    gensalt = some (codes "s");
    hashpw = λ (password salt : Text). some password;
    checkpw = λ (password hash : Text). 0;
  };
  stale = [];
}

abbrev post : HttpRequest
post = record {
  method = codes "POST";
  path = codes "/login";
  version = codes "HTTP/1.1";
  headers = record { name = codes "cookie"; value = codes "SID=x" } ∷ [];
}

abbrev account : Text
account = codes "{\"username\":\"ann\",\"password\":\"p\",\"nickname\":\"a\"}"

handle_login-Entered_example :
    let o = handle_login one_admin sample_system post ann_tables account in
    IsRefusal o.0 ⊎ Entered one_admin sample_system post ann_tables account o
handle_login-Entered_example =
    handle_login-Entered one_admin one_user-IsTable sample_system post ann_tables account

handle_signup-Joined_example :
    let o = handle_signup one_admin sample_system post ann_tables account in
    IsRefusal o.0 ⊎ Joined one_admin sample_system post ann_tables account o
handle_signup-Joined_example =
    handle_signup-Joined one_admin one_user-IsTable sample_system post ann_tables account

handle_static_file-LooksInside_example :
    LooksInside
      (handle_static_file
        (λ (path : Text). none)
        true
        (record post { method = codes "GET"; path = codes "/js/?x" })).1
handle_static_file-LooksInside_example =
    handle_static_file-LooksInside (λ (path : Text). none) true
      (record post { method = codes "GET"; path = codes "/js/?x" })

-- The database of main stands below data/.
target_database : target (codes "/data/ott.db") ≡ file (codes "data/ott.db") (codes "data/ott.db")
unfolding target locate below
target_database = refl

send_response-Replied_example :
    Replied byte_wise byte_wise_stream
      ([], [])
      (reply status_ok [] (codes "deleted"))
      (send_response byte_wise ([], []) (reply status_ok [] (codes "deleted")))
send_response-Replied_example =
    send_response-Replied byte_wise byte_wise_stream ([], []) (reply status_ok [] (codes "deleted"))

build_cors_iff_example :
    (build_cors post.headers ≡ cors_lines (origin_of post.headers))
    ↔ (length (origin_of post.headers) ≤ 59)
build_cors_iff_example = build_cors_iff post.headers

abbrev one_row : List VideoRow
one_row =
    record {
      id = 3;
      title = codes "a";
      description = [];
      file_path = codes "data/a.mp4";
      thumbnail_path = [];
    }
    ∷ []

list_reply-separated_example :
    let text = codes "{\"items\":[" ++ separated true (map row_text one_row) in
    list_reply one_row ≡ (
      if leb 8190 (length text)
      then internal_error (codes "response-too-large")
      else reply status_ok (codes "Content-Type: application/json\r\n") (text ++ codes "]}"))
list_reply-separated_example = list_reply-separated one_row
