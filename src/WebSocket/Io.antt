-- ===== src/WebSocket/Io.antt =====
-- `io_read`, `io_write` and the loops over them. The socket, or the TLS session, is a parameter.
use ott_quic.Common.{
  ℕ, zero, suc, ◌-◌, Bool, true, false, Option, none, some, List, [], ◌++◌, ◌==◌, if◌then◌else◌,
  length, drop,
}

-- `recv` or `SSL_read`: the bytes that one call returns for at most so many; `none` is a negative
-- result. `send` or `SSL_write`: how many of the bytes one call takes.
pub record Socket : Type 1 where
  pub Conn : Type 0
  pub recv : Conn → ℕ → Option (List ℕ × Conn)
  pub send : Conn → List ℕ → Option (ℕ × Conn)

module _ (socket : Socket) where
  unfoldable pub io_read : socket.Conn → ℕ → Option (List ℕ × socket.Conn)
  io_read conn len = if len == 0 then none else elim (socket.recv conn len) [
    | none ↦ none
    | some (bytes, conn') ↦ if length bytes == 0 then none else some (bytes, conn')
  ]

  unfoldable pub io_write : socket.Conn → List ℕ → Option (ℕ × socket.Conn)
  io_write conn bytes = if length bytes == 0 then none else elim (socket.send conn bytes) [
    | none ↦ none
    | some (n, conn') ↦ if n == 0 then none else some (n, conn')
  ]

  -- The loop of `read_exact`, of which each round reads at least one byte: as many rounds as bytes.
  unfoldable pub read_loop : ℕ → socket.Conn → ℕ → Option (List ℕ × socket.Conn)
  read_loop zero conn len = if len == 0 then some ([], conn) else none
  read_loop (suc rounds) conn len = if len == 0 then some ([], conn) else elim (io_read conn len) [
    | none ↦ none
    | some (bytes, conn') ↦ elim (read_loop rounds conn' (len - length bytes)) [
      | none ↦ none
      | some (later, conn'') ↦ some (bytes ++ later, conn'')
    ]
  ]

  unfoldable pub read_exact : socket.Conn → ℕ → Option (List ℕ × socket.Conn)
  unfolding read_loop
  read_exact conn len = read_loop len conn len

  -- The loop of `write_all`: whether it succeeds, and the connection, also where it fails.
  unfoldable pub write_loop : ℕ → socket.Conn → List ℕ → Bool × socket.Conn
  write_loop zero conn bytes = (length bytes == 0, conn)
  write_loop (suc rounds) conn bytes =
      if length bytes == 0 then (true, conn) else elim (io_write conn bytes) [
        | none ↦ (false, conn)
        | some (n, conn') ↦ write_loop rounds conn' (drop n bytes)
      ]

  unfoldable pub write_all : socket.Conn → List ℕ → Bool × socket.Conn
  unfolding write_loop
  write_all conn bytes = write_loop (length bytes) conn bytes
