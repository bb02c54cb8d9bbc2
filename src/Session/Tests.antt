-- ===== src/Session/Tests.antt =====
-- Session ids at concrete inputs.
use ott_quic.Common.{◌≡◌, refl, some, List, [], ◌∷◌, arith}
use ott_quic.Text.{Text, codes, same_exact}
use ott_quic.Http.{HttpHeader}
use ott_quic.Session.{extract_cookie, cookie_loop, extract_from_headers}
use ott_quic.Session.Login.{validate_and_extend}
use ott_quic.Samples.Tables.{one_user, ann_tables}
use ott_quic.Database.{
  has_user, has_session, live_row, without_id, unexpired, db_create_session, db_get_session,
  db_delete_session, db_delete_expired_sessions,
}
use ott_quic.Session.Bounds.{Fits, extract_cookie-cookie_loop, extract_from_headers-Fits}

-- "a=1; sid=xy;b".
abbrev cookies : Text
cookies = 97 ∷ 61 ∷ 49 ∷ 59 ∷ 32 ∷ 115 ∷ 105 ∷ 100 ∷ 61 ∷ 120 ∷ 121 ∷ 59 ∷ 98 ∷ []

-- A request with the header "cookie".
abbrev headers : List HttpHeader
headers = record { name = 99 ∷ 111 ∷ 111 ∷ 107 ∷ 105 ∷ 101 ∷ []; value = cookies } ∷ []

extract_cookie_sid : extract_cookie cookies 33 ≡ some (120 ∷ 121 ∷ [])
unfolding extract_cookie cookie_loop
extract_cookie_sid = refl

extract_cookie-cookie_loop_example : extract_cookie cookies 33 ≡ cookie_loop 20 cookies 33
extract_cookie-cookie_loop_example = extract_cookie-cookie_loop cookies 20 33 (omega arith)

extract_from_headers-Fits_example : Fits 33 (extract_from_headers headers 33)
extract_from_headers-Fits_example = extract_from_headers-Fits headers 33

-- The session ends 1800 seconds from now.
extended : validate_and_extend one_user ann_tables (codes "x") 1800 ≡ (
  some 7,
  record ann_tables {
    sessions = record { user_id = 7; session_id = codes "x"; expires_at = 1900 } ∷ [];
  },
)
unfolding validate_and_extend db_get_session live_row db_delete_expired_sessions unexpired
    db_delete_session without_id db_create_session has_user has_session same_exact
extended = refl
