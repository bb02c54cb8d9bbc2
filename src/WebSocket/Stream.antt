-- ===== src/WebSocket/Stream.antt =====
-- What the loops over the socket promise, whatever pieces it takes and returns.
use ott_quic.Common.{
  ℕ, zero, suc, ◌+◌, ◌-◌, ◌≤◌, ◌<◌, ◌≡◌, ◌⊎◌, refl, sym, ap, ◌∙◌, Bool, false, Option, some, List,
  [], ◌∷◌, ◌++◌, ◌==◌, length, take, drop, append_assoc, length-append, take-append-drop, take-add,
  append-nil, Option-cases, inl, inr, arith,
}
use ott_quic.WebSocket.Io.{Socket, io_read, io_write, read_loop, read_exact, write_loop, write_all}

-- What a stream socket promises: the bytes come in order, in pieces that are not empty while
-- there are bytes, and what is taken is sent in order.
pub record IsStream (socket : Socket) : Type 0 where
  pub incoming : socket.Conn → List ℕ
  pub outgoing : socket.Conn → List ℕ
  pub recv_in_order :
      (conn conn' : socket.Conn) (len : ℕ) (bytes : List ℕ)
      → socket.recv conn len ≡ some (bytes, conn')
      → (incoming conn ≡ bytes ++ incoming conn') × (length bytes ≤ len)
  pub recv_ready :
      (conn : socket.Conn) (len : ℕ)
      → 0 < len
      → 0 < length (incoming conn)
      → (r : List ℕ × socket.Conn) × (socket.recv conn len ≡ some r) × (0 < length r.0)
  pub send_in_order :
      (conn conn' : socket.Conn) (bytes : List ℕ) (n : ℕ)
      → socket.send conn bytes ≡ some (n, conn')
      → (outgoing conn' ≡ outgoing conn ++ take n bytes) × (n ≤ length bytes)

positive : (n : ℕ) → 0 < n → (n == 0) ≡ false
positive n h = ground arith

io_read-recv :
    (socket : Socket) (conn conn' : socket.Conn) (len : ℕ) (bytes : List ℕ)
    → socket.recv conn len ≡ some (bytes, conn')
    → 0 < len
    → 0 < length bytes
    → io_read socket conn len ≡ some (bytes, conn')
unfolding io_read
io_read-recv socket conn conn' len bytes e lt nonempty =
    rw (positive len lt, io_read) (rw e (rw (positive (length bytes) nonempty) refl))

io_write-send :
    (socket : Socket) (conn conn' : socket.Conn) (bytes : List ℕ) (n : ℕ)
    → io_write socket conn bytes ≡ some (n, conn')
    → socket.send conn bytes ≡ some (n, conn')
unfolding io_write
io_write-send socket conn conn' bytes n e = ground arith

drop_more : (xs ys : List ℕ) (n : ℕ) → length xs ≤ n → drop n (xs ++ ys) ≡ drop (n - length xs) ys
drop_more [] ys n h = ap (λ (k : ℕ). drop k ys) (omega arith)
drop_more (x ∷ xs) ys zero h = absurd (omega arith)
drop_more (x ∷ xs) ys (suc n) h =
    drop_more xs ys n (omega arith) ∙ ap (λ (k : ℕ). drop k ys) (omega arith)

take_more :
    (xs ys : List ℕ) (n : ℕ) → length xs ≤ n → take n (xs ++ ys) ≡ xs ++ take (n - length xs) ys
take_more [] ys n h = ap (λ (k : ℕ). take k ys) (omega arith)
take_more (x ∷ xs) ys zero h = absurd (omega arith)
take_more (x ∷ xs) ys (suc n) h =
    ap (λ t. x ∷ t)
      (take_more xs ys n (omega arith) ∙ ap (λ (k : ℕ). xs ++ take k ys) (omega arith))

module _ (socket : Socket) (stream : IsStream socket) where
  -- `len` bytes were read.
  abbrev pub Reads : socket.Conn → ℕ → Option (List ℕ × socket.Conn) → Type 0
  Reads conn len r =
      (conn' : socket.Conn) × (r ≡ some (take len (stream.incoming conn), conn'))
      × (stream.incoming conn' ≡ drop len (stream.incoming conn))

  io_read-some :
      (conn : socket.Conn) (len : ℕ)
      → 0 < len
      → 0 < length (stream.incoming conn)
      → (bytes : List ℕ) × (conn' : socket.Conn) × (io_read socket conn len ≡ some (bytes, conn'))
        × (0 < length bytes)
        × (length bytes ≤ len)
        × (stream.incoming conn ≡ bytes ++ stream.incoming conn')
  io_read-some conn len lt ready =
      let (r, e, nonempty) = stream.recv_ready conn len lt ready in
      let (bytes, conn') = r in
      let (order, short) = stream.recv_in_order conn conn' len bytes e in
      (bytes, conn', io_read-recv socket conn conn' len bytes e lt nonempty, nonempty, short, order)

  read_round :
      (rounds : ℕ) (conn conn' conn'' : socket.Conn) (len : ℕ) (bytes later : List ℕ)
      → 0 < len
      → io_read socket conn len ≡ some (bytes, conn')
      → read_loop socket rounds conn' (len - length bytes) ≡ some (later, conn'')
      → read_loop socket (suc rounds) conn len ≡ some (bytes ++ later, conn'')
  unfolding read_loop
  read_round rounds conn conn' conn'' len bytes later lt e e' =
      rw (positive len lt, read_loop) (rw e (rw e' refl))

  read_loop-Reads :
      (rounds : ℕ) (conn : socket.Conn) (len : ℕ)
      → len ≤ rounds
      → len ≤ length (stream.incoming conn)
      → Reads conn len (read_loop socket rounds conn len)
  unfolding read_loop
  read_loop-Reads zero conn zero h ready = (conn, refl, refl)
  read_loop-Reads (suc rounds) conn zero h ready = (conn, refl, refl)
  read_loop-Reads zero conn (suc len) h ready = absurd (omega arith)
  read_loop-Reads (suc rounds) conn (suc len) h ready =
      let (bytes, conn', e, nonempty, short, order) =
        io_read-some conn (suc len) (omega arith) (omega arith) in
      let split = ap length order ∙ length-append bytes (stream.incoming conn') in
      let (conn'', e', rest) =
        read_loop-Reads rounds conn' (suc len - length bytes) (omega arith) (omega arith) in
      (
        conn'',
        read_round rounds conn conn' conn'' (suc len) bytes _ (omega arith) e e'
            ∙ ap (λ (i : List ℕ). some (i, conn''))
                (sym (
                  ap (λ (i : List ℕ). take (suc len) i) order ∙ take_more bytes _ (suc len) short)),
        rest
            ∙ sym (ap (λ (i : List ℕ). drop (suc len) i) order ∙ drop_more bytes _ (suc len) short),
      )

  -- `read_exact` reads so many bytes, whatever pieces they come in, once they are there.
  pub read_exact-Reads :
      (conn : socket.Conn) (len : ℕ)
      → len ≤ length (stream.incoming conn)
      → Reads conn len (read_exact socket conn len)
  unfolding read_exact
  read_exact-Reads conn len ready = read_loop-Reads len conn len (omega arith) ready

  -- What `write_loop` has sent: all, if it succeeds, and else a prefix.
  abbrev pub Writes : socket.Conn → List ℕ → Bool × socket.Conn → Type 0
  Writes conn bytes r =
      (n : ℕ) × (stream.outgoing r.1 ≡ stream.outgoing conn ++ take n bytes)
      × ((r.0 ≡ false) ⊎ (take n bytes ≡ bytes))

  write_loop-Writes :
      (rounds : ℕ) (conn : socket.Conn) (bytes : List ℕ)
      → Writes conn bytes (write_loop socket rounds conn bytes)
  unfolding write_loop
  write_loop-Writes zero conn [] = (0, sym (append-nil _), inr refl)
  write_loop-Writes zero conn (b ∷ bytes) =
      (0, sym (append-nil _), inl (positive (length (b ∷ bytes)) (omega arith)))
  write_loop-Writes (suc rounds) conn [] = (0, sym (append-nil _), inr refl)
  write_loop-Writes (suc rounds) conn (b ∷ bytes) =
      elim (Option-cases (io_write socket conn (b ∷ bytes))) [
        | inl e ↦
            rw (positive (length (b ∷ bytes)) (omega arith), write_loop)
              (rw e (0, sym (append-nil _), inl refl))
        | inr ((n, conn'), e) ↦
            let (m, sent, all) = write_loop-Writes rounds conn' (drop n (b ∷ bytes)) in
            let order =
              (stream.send_in_order conn conn' (b ∷ bytes) n
                (io_write-send socket conn conn' (b ∷ bytes) n e)).0 in
            rw (positive (length (b ∷ bytes)) (omega arith), write_loop)
              (rw e (
                n + m,
                sent
                    ∙ ap (λ (t : List ℕ). t ++ take m (drop n (b ∷ bytes))) order
                    ∙ append_assoc (stream.outgoing conn) (take n (b ∷ bytes)) _
                    ∙ ap (λ (t : List ℕ). stream.outgoing conn ++ t)
                        (sym (take-add n m (b ∷ bytes))),
                elim all [
                  | inl f ↦ inl f
                  | inr a ↦ inr (
                      take-add n m (b ∷ bytes)
                      ∙ ap (λ (t : List ℕ). take n (b ∷ bytes) ++ t) a
                      ∙ take-append-drop n (b ∷ bytes))
                ],
              ))
      ]

  -- `write_all` sends all bytes in order or fails, and then it has sent a prefix of them.
  pub write_all-Writes :
      (conn : socket.Conn) (bytes : List ℕ) → Writes conn bytes (write_all socket conn bytes)
  unfolding write_all
  write_all-Writes conn bytes = write_loop-Writes (length bytes) conn bytes
