-- ===== src/Session/Hash.antt =====
-- src/auth/hash.c. The library bcrypt is a parameter.
use ott_quic.Common.{ℕ, Bool, Option, none, some, ltb, if◌then◌else◌, ◌==◌}
use ott_quic.Text.{Text, cut}

abbrev pub hash_hex_size : ℕ
hash_hex_size = 61

-- What bcrypt gives: a salt, the hash of a password with a salt, and 0 for a password that has this
-- hash.
pub record Bcrypt : Type 0 where
  pub gensalt : Option Text
  pub hashpw : Text → Text → Option Text
  pub checkpw : Text → Text → ℕ

-- `hash_password`: what stands in the buffer after it. A failure leaves what stood there before.
unfoldable pub hash_password : Bcrypt → Text → Text → ℕ → Text
hash_password bcrypt password before out_size =
    if ltb out_size hash_hex_size then before else elim bcrypt.gensalt [
      | none ↦ before
      | some salt ↦ elim (bcrypt.hashpw password salt) [
        | none ↦ before
        | some hash ↦ cut out_size hash
      ]
    ]

-- `verify_password`: whether it returns 0.
unfoldable pub verify_password : Bcrypt → Text → Text → Bool
verify_password bcrypt password hash_hex = bcrypt.checkpw password hash_hex == 0
