-- ===== src/WebSocket/Digest.antt =====
-- What `sha1_compute` hashes: the padded message of FIPS 180-4, block by block.
use ott_quic.Common.{
  ℕ, zero, suc, ◌+◌, ◌-◌, ◌*◌, ◌<◌, ◌≡◌, refl, sym, ap, ◌∙◌, List, [], ◌∷◌, ◌++◌, append_assoc,
  append-nil, ltb, ◌==◌, length, length-append, length-replicate, replicate, All, u64, Bool-cases,
  inl, inr, arith,
}
use mathlib.Core.Path.{subst}
use ott_quic.WebSocket.Sha1.{
  Context, Words, sha1_init, update_byte, sha1_update, sha1_transform, word_bytes, pad, sha1_final,
  sha1_compute,
}

abbrev pub concat : List (List ℕ) → List ℕ
concat [] = []
concat (b ∷ blocks) = b ++ concat blocks

-- The blocks in turn.
abbrev pub absorb : Words → List (List ℕ) → Words
absorb state [] = state
absorb state (b ∷ blocks) = absorb (sha1_transform state b) blocks

abbrev pub IsBlock : List ℕ → Type 0
IsBlock b = length b ≡ 64

-- The five words of a state, each highest byte first.
abbrev pub digest : Words → List ℕ
digest (a, b, c, d, e) =
    word_bytes 4 a ++ (word_bytes 4 b ++ (word_bytes 4 c ++ (word_bytes 4 d ++ word_bytes 4 e)))

concat-append : (xs ys : List (List ℕ)) → concat (xs ++ ys) ≡ concat xs ++ concat ys
concat-append [] ys = refl
concat-append (x ∷ xs) ys =
    ap (λ (t : List ℕ). x ++ t) (concat-append xs ys) ∙ sym (append_assoc x (concat xs) (concat ys))

absorb-append :
    (state : Words) (xs ys : List (List ℕ)) → absorb state (xs ++ ys) ≡ absorb (absorb state xs) ys
absorb-append state [] ys = refl
absorb-append state (x ∷ xs) ys = absorb-append (sha1_transform state x) xs ys

append-All : (xs ys : List (List ℕ)) → All IsBlock xs → All IsBlock ys → All IsBlock (xs ++ ys)
append-All [] ys a b = b
append-All (x ∷ xs) ys (p, a) b = (p, append-All xs ys a b)

length-concat : (xs : List (List ℕ)) → All IsBlock xs → length (concat xs) ≡ length xs * 64
length-concat [] a = refl
length-concat (x ∷ xs) (p, a) = omega (arith, length-append x (concat xs), length-concat xs a)

-- So many zero bytes.
abbrev pub nulls : ℕ → List ℕ
nulls n = replicate n 0

nulls-add : (m n : ℕ) → nulls m ++ nulls n ≡ nulls (m + n)
nulls-add zero n = ap nulls {x = n} {y = 0 + n} (omega arith)
nulls-add (suc m) n =
    ap (λ (t : List ℕ). 0 ∷ t) (nulls-add m n)
    ∙ ap nulls {x = suc (m + n)} {y = suc m + n} (omega arith)

-- The bytes so far are the blocks that were hashed and the buffer, which is not full.
pub record After (bytes : List ℕ) (ctx : Context) : Type 0 where
  pub blocks : List (List ℕ)
  pub whole : All IsBlock blocks
  pub bytes_eq : bytes ≡ concat blocks ++ ctx.buffer
  pub state_eq : ctx.state ≡ absorb sha1_init.state blocks
  pub bitlen_eq : ctx.bitlen ≡ u64 (length blocks * 512)
  pub room : length ctx.buffer < 64

update_byte-After :
    (bytes : List ℕ) (ctx : Context) (byte : ℕ)
    → After bytes ctx
    → After (bytes ++ (byte ∷ [])) (update_byte ctx byte)
unfolding update_byte
update_byte-After bytes ctx byte h =
    let full = ctx.buffer ++ (byte ∷ []) in
    let len = length-append ctx.buffer (byte ∷ []) in
    let all : bytes ++ (byte ∷ []) ≡ concat h.blocks ++ full =
      ap (λ (t : List ℕ). t ++ (byte ∷ [])) h.bytes_eq
      ∙ append_assoc (concat h.blocks) ctx.buffer (byte ∷ []) in
    elim (Bool-cases (length full == 64)) [
      | inl e ↦ rw e (record {
        blocks = h.blocks ++ (full ∷ []);
        whole = append-All h.blocks (full ∷ []) h.whole (ground arith, tt);
        bytes_eq =
            all
            ∙ ap (λ (t : List ℕ). concat h.blocks ++ t) (sym (append-nil full))
            ∙ sym (concat-append h.blocks (full ∷ []))
            ∙ sym (append-nil (concat (h.blocks ++ (full ∷ []))));
        state_eq =
            ap (λ (s : Words). sha1_transform s full) h.state_eq
            ∙ sym (absorb-append sha1_init.state h.blocks (full ∷ []));
        bitlen_eq = omega (arith, h.bitlen_eq, length-append h.blocks (full ∷ []));
        room = omega arith;
      })
      | inr e ↦
          let small : length full < 64 = ground (arith, h.room) in
          rw e (record {
            blocks = h.blocks;
            whole = h.whole;
            bytes_eq = all;
            state_eq = h.state_eq;
            bitlen_eq = h.bitlen_eq;
            room = small;
          })
    ]

sha1_update-After :
    (before : List ℕ) (ctx : Context) (bytes : List ℕ)
    → After before ctx
    → After (before ++ bytes) (sha1_update ctx bytes)
unfolding sha1_update
sha1_update-After before ctx [] h = subst (λ (t : List ℕ). After t ctx) (sym (append-nil before)) h
sha1_update-After before ctx (b ∷ bytes) h =
    subst (λ (t : List ℕ). After t (sha1_update (update_byte ctx b) bytes))
      (append_assoc before (b ∷ []) bytes)
      (sha1_update-After (before ++ (b ∷ [])) (update_byte ctx b) bytes
        (update_byte-After before ctx b h))

-- The message with 0x80, as many zeros, and its length in bits modulo 2^64 in eight bytes.
abbrev pub padded : List ℕ → ℕ → List ℕ
padded bytes zeros = bytes ++ ((0x80 ∷ nulls zeros) ++ word_bytes 8 (u64 (length bytes * 8)))

-- The hash is that of blocks of 64 bytes, which together are the padded message with less than 64
-- zeros.
pub record Hashed (bytes hash : List ℕ) : Type 0 where
  pub zeros : ℕ
  pub blocks : List (List ℕ)
  pub few : zeros < 64
  pub whole : All IsBlock blocks
  pub message : concat blocks ≡ padded bytes zeros
  pub hash_eq : hash ≡ digest (absorb sha1_init.state blocks)

in_one :
    (front buffer zs count : List ℕ)
    → front ++ ((((buffer ++ (0x80 ∷ [])) ++ zs) ++ count) ++ [])
      ≡ (front ++ buffer) ++ ((0x80 ∷ zs) ++ count)
in_one front buffer zs count = simp (append_assoc, append-nil)

in_two :
    (front buffer zs others count : List ℕ)
    → front ++ (((buffer ++ (0x80 ∷ [])) ++ zs) ++ ((others ++ count) ++ []))
      ≡ (front ++ buffer) ++ ((0x80 ∷ (zs ++ others)) ++ count)
in_two front buffer zs others count = simp (append_assoc, append-nil)

length-word_bytes : (n v : ℕ) → length (word_bytes n v) ≡ n
unfolding word_bytes
length-word_bytes zero v = refl
length-word_bytes (suc n) v = ap suc (length-word_bytes n _)

sha1_final-Hashed :
    (bytes : List ℕ) (ctx : Context) → After bytes ctx → Hashed bytes (sha1_final ctx)
unfolding sha1_final pad
sha1_final-Hashed bytes ctx h =
    let full = ctx.buffer ++ (0x80 ∷ []) in
    let len = length-append ctx.buffer (0x80 ∷ []) in
    let front = concat h.blocks in
    let bits : ℕ = u64 (length bytes * 8) in
    let size : length bytes ≡ length h.blocks * 64 + length ctx.buffer =
      ap length h.bytes_eq
      ∙ length-append front ctx.buffer
      ∙ ap (λ (k : ℕ). k + length ctx.buffer) (length-concat h.blocks h.whole) in
    let count : u64 (ctx.bitlen + length ctx.buffer * 8) ≡ bits =
      omega (arith, h.bitlen_eq, size) in
    let w = word_bytes 8 bits in
    let wide = length-word_bytes 8 bits in
    elim (Bool-cases (ltb 56 (length full))) [
      | inl e ↦
          let gap : ℕ = 64 - length full in
          let b1 = full ++ nulls gap in
          let b2 = nulls 56 ++ w in
          let last = b1 ∷ b2 ∷ [] in
          rw (count, e)
            (record {
              zeros = gap + 56;
              blocks = h.blocks ++ last;
              few = ground (arith, h.room);
              whole = append-All h.blocks last h.whole (
                ground
                    (arith, h.room, length-append full (nulls gap), length-replicate {A = ℕ} gap 0),
                (refl, tt),
              );
              message =
                  concat-append h.blocks last
                  ∙ in_two front ctx.buffer (nulls gap) (nulls 56) w
                  ∙ ap (λ (t : List ℕ). (front ++ ctx.buffer) ++ ((0x80 ∷ t) ++ w))
                      (nulls-add gap 56)
                  ∙ ap (λ (t : List ℕ). t ++ ((0x80 ∷ nulls (gap + 56)) ++ w)) (sym h.bytes_eq);
              hash_eq =
                  ap (λ (s : Words). digest (sha1_transform (sha1_transform s b1) b2)) h.state_eq
                  ∙ ap digest (sym (absorb-append sha1_init.state h.blocks last));
            })
      | inr e ↦
          let gap : ℕ = 56 - length full in
          let b = (full ++ nulls gap) ++ w in
          rw (count, e)
            (record {
              zeros = gap;
              blocks = h.blocks ++ (b ∷ []);
              few = omega arith;
              whole = append-All h.blocks (b ∷ []) h.whole (
                ground (
                  arith,
                  h.room,
                  length-append (full ++ nulls gap) w,
                  length-append full (nulls gap),
                  length-replicate {A = ℕ} gap 0,
                  wide,
                ),
                tt,
              );
              message =
                  concat-append h.blocks (b ∷ [])
                  ∙ in_one front ctx.buffer (nulls gap) w
                  ∙ ap (λ (t : List ℕ). t ++ ((0x80 ∷ nulls gap) ++ w)) (sym h.bytes_eq);
              hash_eq =
                  ap (λ (s : Words). digest (sha1_transform s b)) h.state_eq
                  ∙ ap digest (sym (absorb-append sha1_init.state h.blocks (b ∷ [])));
            })
    ]

sha1_init-After : After [] sha1_init
unfolding sha1_init
sha1_init-After = record {
  blocks = [];
  whole = tt;
  bytes_eq = refl;
  state_eq = refl;
  bitlen_eq = refl;
  room = omega arith;
}

-- `sha1_compute` gives the five words that come of hashing, from the first state on and block by
-- block, the message of FIPS 180-4: the bytes, 0x80, as many zeros as complete the last block, and
-- the number of bits modulo 2^64 in eight bytes, highest first.
pub sha1_compute-Hashed : (bytes : List ℕ) → Hashed bytes (sha1_compute bytes)
unfolding sha1_compute
sha1_compute-Hashed bytes =
    sha1_final-Hashed bytes (sha1_update sha1_init bytes)
      (sha1_update-After [] sha1_init bytes sha1_init-After)
