-- ===== src/Session/Login.antt =====
-- `session_login`, `session_validate_and_extend` and `session_logout` of src/auth/session.c. The
-- tables of src/db/database.c and the test of a password are an interface, which
-- Database/Sessions.antt fills.
use ott_quic.Common.{
  ℕ, ◌+◌, ◌<◌, ◌≡◌, refl, Bool, true, false, not, Option, none, some, List, if◌then◌else◌,
  Bool-cases, Option-cases, inl, inr, ◌⊎◌, arith,
}
use ott_quic.Text.{Text}
use ott_quic.Session.{generate_id}

abbrev pub session_ttl_seconds : ℕ
session_ttl_seconds = 1800

-- The database: its clock in seconds, and its calls. `get_session` and `expires_at` are two columns
-- of the row that `db_get_session` finds; `none` stands for a code other than `SQLITE_OK`, and `verify_password`.
pub record Database : Type 1 where
  pub Store : Type 0
  pub get_user : Store → Text → Option (ℕ × Text)
  pub now : Store → ℕ
  pub get_session : Store → Text → Option ℕ
  pub expires_at : Store → Text → Option ℕ
  pub create_session : Store → ℕ → Text → ℕ → Option Store
  pub delete_session : Store → Text → Bool × Store
  pub delete_expired : Store → Option Store
  pub verify_password : Text → Text → Bool

module _ (db : Database) where
  -- The session id, and the store; the first argument is what the system gives at random.
  unfoldable pub login : Option (List ℕ) → db.Store → Text → Text → ℕ → Option Text × db.Store
  login random store username password out_size = elim (db.get_user store username) [
    | none ↦ (none, store)
    | some (user, hash) ↦
        if not (db.verify_password password hash)
        then (none, store)
        else elim (generate_id random out_size) [
          | none ↦ (none, store)
          | some id ↦ elim (db.create_session store user id session_ttl_seconds) [
            | none ↦ (none, store)
            | some store' ↦ (some id, store')
          ]
        ]
  ]

  -- `*out_user_id`, and the store.
  unfoldable pub validate_and_extend : db.Store → Text → ℕ → Option ℕ × db.Store
  validate_and_extend store id ttl = elim (db.get_session store id) [
    | none ↦ (none, store)
    | some user ↦ elim (db.delete_expired store) [
      | none ↦ (none, store)
      | some store1 ↦
          let store2 = (db.delete_session store1 id).1 in
          elim (db.create_session store2 user id ttl) [
            | none ↦ (none, store2)
            | some store3 ↦ (some user, store3)
          ]
    ]
  ]

  unfoldable pub logout : db.Store → Text → Bool × db.Store
  logout store id = db.delete_session store id

  -- What the session table promises: a session that was created for more than 0 seconds is found,
  -- and expires when these are over; deleting does not move the clock.
  pub record IsTable : Type 0 where
    pub created :
        (store store' : db.Store) (user : ℕ) (id : Text) (ttl : ℕ)
        → 0 < ttl
        → db.create_session store user id ttl ≡ some store'
        → (db.get_session store' id ≡ some user)
          × (db.expires_at store' id ≡ some (db.now store + ttl))
    pub now_deleted :
        (store : db.Store) (id : Text) → db.now (db.delete_session store id).1 ≡ db.now store
    pub now_expired :
        (store store' : db.Store)
        → db.delete_expired store ≡ some store'
        → db.now store' ≡ db.now store

  -- A login that succeeds.
  abbrev pub LoggedIn : db.Store → Text → Text → Option Text × db.Store → Type 0
  LoggedIn store username password r =
      (user : ℕ) × (hash : Text) × (id : Text) × (db.get_user store username ≡ some (user, hash))
      × (db.verify_password password hash ≡ true)
      × (r.0 ≡ some id)
      × (db.get_session r.1 id ≡ some user)
      × (db.expires_at r.1 id ≡ some (db.now store + session_ttl_seconds))

  -- Why a login fails.
  abbrev pub LoginFails : Option (List ℕ) → db.Store → Text → Text → ℕ → Type 0
  LoginFails random store username password out_size =
      (db.get_user store username ≡ none)
      ⊎ ((user : ℕ) × (hash : Text) × (db.get_user store username ≡ some (user, hash))
          × (db.verify_password password hash ≡ false))
      ⊎ (generate_id random out_size ≡ none)
      ⊎ ((user : ℕ) × (id : Text) × (db.create_session store user id session_ttl_seconds ≡ none))

  pub login-LoggedIn :
      IsTable
      → (random : Option (List ℕ)) (store : db.Store) (username password : Text) (out_size : ℕ)
      → let r = login random store username password out_size in
        ((r.0 ≡ none) × (r.1 ≡ store) × LoginFails random store username password out_size)
        ⊎ LoggedIn store username password r
  unfolding login
  login-LoggedIn table random store username password out_size =
      elim (Option-cases (db.get_user store username)) [
        | inl e ↦ rw (e, login) (inl (refl, refl, inl refl))
        | inr ((user, hash), e) ↦ elim (Bool-cases (db.verify_password password hash)) [
          | inr v ↦ rw (e, login) (rw v (inl (refl, refl, inr (inl (user, hash, refl, v)))))
          | inl v ↦ elim (Option-cases (generate_id random out_size)) [
            | inl g ↦ rw (e, login) (rw v (rw g (inl (refl, refl, inr (inr (inl refl))))))
            | inr (id, g) ↦
                elim (Option-cases (db.create_session store user id session_ttl_seconds)) [
                  | inl c ↦
                      rw (e, login)
                        (rw v (rw g (rw c (inl (refl, refl, inr (inr (inr (user, id, c))))))))
                  | inr (store', c) ↦
                      let found =
                        table.created store store' user id session_ttl_seconds (omega arith) c in
                      inr (
                        user,
                        hash,
                        id,
                        e,
                        v,
                        rw (e, login) (rw v (rw g (rw c refl))),
                        rw (e, login) (rw v (rw g (rw c found.0))),
                        rw (e, login) (rw v (rw g (rw c found.1))),
                      )
                ]
          ]
        ]
      ]

  -- One of the calls of `validate_and_extend` fails.
  abbrev pub FailedCall : db.Store → Text → ℕ → Type 0
  FailedCall store id ttl =
      (db.get_session store id ≡ none)
      ⊎ (db.delete_expired store ≡ none)
      ⊎ ((user : ℕ) × (store' : db.Store) × (db.create_session (db.delete_session store' id).1 user
              id ttl
            ≡ none))
