-- ===== src/Api/LogIn.antt =====
-- What a reply with a session id means after `handle_login`.
use ott_quic.Common.{◌+◌, ◌≡◌, ◌⊎◌, inl, inr, refl, sym, ◌∙◌, not, some, Bool-cases, Option-cases}
use ott_quic.Text.{Text, codes, same_text, same_exact}
use ott_quic.Http.{HttpRequest}
use ott_quic.Session.{session_id_len}
use ott_quic.Session.Login.{login, IsTable, LoggedIn, login-LoggedIn}
use ott_quic.Api.Json.{extract_string}
use ott_quic.Api.Backend.{Backend, System}
use ott_quic.Api.Account.{Outcome, handle_login, login_with, cookie_headers, closed_body, shown}
use ott_quic.Api.SignUp.{IsRefusal, session_reply-cases}

module _ (b : Backend) where
  -- A login that succeeds: the body names a user and the user's password, and the id in the cookie
  -- is a session of this user that expires in 1800 seconds.
  abbrev pub Entered : System → HttpRequest → b.sessions.Store → Text → Outcome b → Type 0
  Entered sys req store body o =
      (user : Text) × (pass : Text) × (sid : Text) × (extract_string (closed_body body)
          (codes "username") 128
        ≡ some user)
      × (extract_string (closed_body body) (codes "password") 128 ≡ some pass)
      × (o.0.headers ≡ cookie_headers req sid)
      × LoggedIn b.sessions store user pass (some sid, o.1)

  login_with-Entered :
      IsTable b.sessions
      → (sys : System) (req : HttpRequest) (store : b.sessions.Store) (user pass : Text)
      → let o = login_with b sys req store user pass in
        IsRefusal o.0
        ⊎ ((sid : Text) × (o.0.headers ≡ cookie_headers req sid)
            × LoggedIn b.sessions store user pass (some sid, o.1))
  unfolding login_with same_exact
  login_with-Entered table sys req store user pass =
      let r = login b.sessions sys.random store user pass (session_id_len + 1) in
      elim (Option-cases r.0) [
        | inl e ↦ rw (e, login_with) (inl refl)
        | inr (sid, e) ↦
            let name = (shown sys (b.get_user_by_username r.1 user) user).0 in
            let admin = (shown sys (b.get_user_by_username r.1 user) user).1 in
            elim (login-LoggedIn b.sessions table sys.random store user pass (session_id_len + 1)) [
              | inl (failed, same, why) ↦ absurd (cc)
              | inr (id, hash, found, known, verified, given, in_session, until) ↦
                  rw (e, login_with)
                    (elim (session_reply-cases req sid user name admin) [
                      | inl s ↦ inl s
                      | inr s ↦ inr (
                        sid,
                        s,
                        (id, hash, found, known, verified, sym e ∙ given, in_session, until),
                      )
                    ])
            ]
      ]

  -- The reply to a login has another status than 200; or the body names a user and the user's
  -- password, and the id in the cookie is a session of this user that expires in 1800 seconds. The
  -- hypothesis is `IsTable`, what the session table promises.
  pub handle_login-Entered :
      IsTable b.sessions
      → (sys : System) (req : HttpRequest) (store : b.sessions.Store) (body : Text)
      → let o = handle_login b sys req store body in IsRefusal o.0 ⊎ Entered sys req store body o
  unfolding handle_login same_exact
  handle_login-Entered table sys req store body =
      elim (Bool-cases (same_text req.method (codes "OPTIONS"))) [
        | inl m ↦ rw (m, handle_login) (inl refl)
        | inr m ↦ elim (Bool-cases (not (same_text req.method (codes "POST")))) [
          | inl p ↦ rw (m, handle_login) (rw p (inl refl))
          | inr p ↦ elim (Option-cases (extract_string (closed_body body) (codes "username") 128)) [
            | inl u ↦ rw (m, handle_login) (rw p (rw u (inl refl)))
            | inr (user, u) ↦
                elim (Option-cases (extract_string (closed_body body) (codes "password") 128)) [
                  | inl w ↦ rw (m, handle_login) (rw p (rw u (rw w (inl refl))))
                  | inr (pass, w) ↦
                      rw (m, handle_login)
                        (rw p (
                          rw u (
                            rw w (elim (login_with-Entered table sys req store user pass) [
                              | inl r ↦ inl r
                              | inr (sid, c, l) ↦ inr (user, pass, sid, refl, refl, c, l)
                            ]))))
                ]
          ]
        ]
      ]
