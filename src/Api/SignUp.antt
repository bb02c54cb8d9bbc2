-- ===== src/Api/SignUp.antt =====
-- What a reply with a session id means after `handle_signup`.
use ott_quic.Common.{
  ℕ, ◌+◌, ◌≡◌, ◌⊎◌, inl, inr, refl, Bool, false, not, none, some, ◌==◌, length, Bool-cases,
  Option-cases, arith,
}
use ott_quic.Text.{Text, codes, same_text, same_exact, fits}
use ott_quic.Http.{HttpRequest}
use ott_quic.Session.{generate_id, session_id_len}
use ott_quic.Session.Login.{IsTable, session_ttl_seconds}
use ott_quic.Api.Reply.{Response}
use ott_quic.Api.Json.{extract_string}
use ott_quic.Api.Backend.{Backend, System}
use ott_quic.Api.Account.{
  new_hash, Outcome, status_ok, handle_signup, sign_up, first_session, session_reply,
  cookie_headers, closed_body, max_username, max_nickname,
}

-- A reply with another status than 200.
abbrev pub IsRefusal : Response → Type 0
IsRefusal r = same_exact r.status status_ok ≡ false

pub session_reply-cases :
    (req : HttpRequest) (sid user nickname : Text) (is_admin : Bool)
    → let r = session_reply req sid user nickname is_admin in
      IsRefusal r ⊎ (r.headers ≡ cookie_headers req sid)
unfolding session_reply same_exact
session_reply-cases req sid user nickname is_admin =
    elim (Bool-cases (fits 512 (cookie_headers req sid))) [
      | inl e ↦ rw (e, session_reply) (inr refl)
      | inr e ↦ rw (e, session_reply) (inl refl)
    ]

module _ (b : Backend) where
  -- The name was free, its user was created with the role user and this password, and the id in
  -- the cookie is a session of this user.
  pub record Registered (sys : System) (req : HttpRequest) (store : b.sessions.Store)
      (username password nickname : Text) (o : Outcome b) : Type 0 where
    pub user_id : ℕ
    pub created_store : b.sessions.Store
    pub sid : Text
    pub was_free : b.get_user_by_username store username ≡ none
    pub created :
        b.create_user store username nickname (new_hash sys password) (codes "user")
        ≡ some (user_id, created_store)
    pub cookie : o.0.headers ≡ cookie_headers req sid
    pub in_session : b.sessions.get_session o.1 sid ≡ some user_id
    pub until :
        b.sessions.expires_at o.1 sid ≡ some (b.sessions.now created_store + session_ttl_seconds)

  abbrev pub SignedUp :
      System → HttpRequest → b.sessions.Store → Text → Text → Text → Outcome b → Type 0
  SignedUp sys req store username password nickname o =
      IsRefusal o.0 ⊎ Registered sys req store username password nickname o

  sign_up-SignedUp :
      IsTable b.sessions
      → (sys : System) (req : HttpRequest) (store : b.sessions.Store)
        (username password nickname : Text)
      → SignedUp sys req store username password nickname
          (sign_up b sys req store username password nickname)
  unfolding sign_up first_session same_exact
  sign_up-SignedUp table sys req store username password nickname =
      elim (Option-cases (b.get_user_by_username store username)) [
        | inr (p, e) ↦ rw (e, sign_up) (inl refl)
        | inl e ↦ elim (Bool-cases (length (new_hash sys password) == 0)) [
          | inl h ↦ rw (e, sign_up) (rw h (inl refl))
          | inr h ↦
              elim (Option-cases
                (b.create_user store username nickname (new_hash sys password) (codes "user"))) [
                  | inl c ↦ rw (e, sign_up) (rw h (rw c (inl refl)))
                  | inr ((user_id, store1), c) ↦
                      elim (Option-cases (generate_id sys.random (session_id_len + 1))) [
                        | inl g ↦ rw (e, sign_up) (rw h (rw c (rw (g, first_session) (inl refl))))
                        | inr (sid, g) ↦
                            elim (Option-cases
                              (b.sessions.create_session store1 user_id sid session_ttl_seconds)) [
                                | inl s ↦
                                    rw (e, sign_up)
                                      (rw h (rw c (rw (g, first_session) (rw s (inl refl)))))
                                | inr (store2, s) ↦
                                    let found =
                                      table.created store1 store2 user_id sid session_ttl_seconds
                                        (omega arith) s in
                                    rw (e, sign_up)
                                      (rw h (
                                        rw c (
                                          rw (g, first_session)
                                            (rw s
                                              (elim (session_reply-cases req sid username nickname
                                                false) [
                                                  | inl r ↦ inl r
                                                  | inr r ↦ inr (record {
                                                    user_id = user_id;
                                                    created_store = store1;
                                                    sid = sid;
                                                    was_free = e;
                                                    created = c;
                                                    cookie = r;
                                                    in_session = found.0;
                                                    until = found.1;
                                                  })
                                                ])))))
                              ]
                      ]
                ]
        ]
      ]

  -- A sign-up that succeeds: the body names a user, a password and a nickname, and all is done.
  abbrev pub Joined : System → HttpRequest → b.sessions.Store → Text → Outcome b → Type 0
  Joined sys req store body o =
      (username : Text) × (password : Text) × (nickname : Text) × (extract_string (closed_body body)
          (codes "username") max_username
        ≡ some username)
      × (extract_string (closed_body body) (codes "password") 128 ≡ some password)
      × (extract_string (closed_body body) (codes "nickname") max_nickname ≡ some nickname)
      × Registered sys req store username password nickname o

  -- The reply to a sign-up has another status than 200; or the body names a user, a password and a
  -- nickname, the name was free, the user is created with the role user, and the id in the cookie is
  -- a session of this user that expires in 1800 seconds. The hypothesis is `IsTable`, what the
  -- session table promises.
  pub handle_signup-Joined :
      IsTable b.sessions
      → (sys : System) (req : HttpRequest) (store : b.sessions.Store) (body : Text)
      → let o = handle_signup b sys req store body in IsRefusal o.0 ⊎ Joined sys req store body o
  unfolding handle_signup same_exact
  handle_signup-Joined table sys req store body =
      elim (Bool-cases (same_text req.method (codes "OPTIONS"))) [
        | inl m ↦ rw (m, handle_signup) (inl refl)
        | inr m ↦ elim (Bool-cases (not (same_text req.method (codes "POST")))) [
          | inl p ↦ rw (m, handle_signup) (rw p (inl refl))
          | inr p ↦
              elim (Option-cases
                (extract_string (closed_body body) (codes "username") max_username)) [
                  | inl u ↦ rw (m, handle_signup) (rw p (rw u (inl refl)))
                  | inr (username, u) ↦
                      elim (Option-cases
                        (extract_string (closed_body body) (codes "password") 128)) [
                          | inl w ↦ rw (m, handle_signup) (rw p (rw u (rw w (inl refl))))
                          | inr (password, w) ↦
                              elim (Option-cases (
                                extract_string (closed_body body) (codes "nickname")
                                  max_nickname)) [
                                    | inl n ↦
                                        rw (m, handle_signup) (rw p (rw u (rw w (rw n (inl refl)))))
                                    | inr (nickname, n) ↦
                                        rw (m, handle_signup)
                                          (rw p (
                                            rw u (
                                              rw w (
                                                rw n
                                                  (elim (sign_up-SignedUp table sys req store
                                                    username password nickname) [
                                                      | inl r ↦ inl r
                                                      | inr r ↦ inr (
                                                        username, password, nickname, refl, refl,
                                                        refl, r,
                                                      )
                                                    ])))))
                                  ]
                        ]
                ]
        ]
      ]
