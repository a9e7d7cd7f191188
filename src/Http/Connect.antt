-- ===== src/Http/Connect.antt =====
-- src/net-modules/http.c: `http_connect` and `http_ssl_connect`. What the calls of the system come to
-- is an argument.
use freenote_probe.Base.{
  ℕ, Bool, true, false, ◌&&◌, not, Option, none, some, List, [], ◌∷◌, ◌==◌, if◌then◌else◌,
}
use freenote_probe.Base.Int.{ℤ, pos, negsuc, ltb_ℤ, eq_ℤ}
use freenote_probe.Ran.{Ran, returns, waits, ◌>>=◌}
use freenote_probe.Task.Types.{inaddr_none}
use freenote_probe.Http.Body.{Conn}
use freenote_probe.Http.Request.{HttpRequest}

-- The result of a call, and whether errno is EINPROGRESS.
pub record Answered : Type 0 where
  pub ret : ℤ
  pub in_progress : Bool

-- One attempt to connect: whether there is a socket, what connect and each select come to, the error
-- of the socket, and the connection.
pub record Attempt : Type 0 where
  pub socket : Bool
  pub connect : Answered
  pub selects : List Answered
  pub so_error : ℕ
  pub conn : Conn

-- The loop around select.
unfoldable pub select_loop : List Answered → Ran Bool
select_loop [] = waits
select_loop (a ∷ selects) =
    let rest = select_loop selects in
    if ltb_ℤ a.ret (pos 0) && not a.in_progress
    then returns false
    else if eq_ℤ a.ret (pos 0)
    then returns false
    else if ltb_ℤ (pos 0) a.ret
    then returns true
    else rest

abbrev pub no_socket_error : Attempt → Bool → Option Conn
no_socket_error a false = none
no_socket_error a true = if a.so_error == 0 then some a.conn else none

abbrev pub attempt : Attempt → Ran (Option Conn)
attempt a =
    if not a.socket
    then returns none
    else if ltb_ℤ a.connect.ret (pos 0) && not a.connect.in_progress
    then returns none
    else (select_loop a.selects >>= λ selected. returns (no_socket_error a selected))

-- The connection, or `none` for -1, and the attempts that are left.
abbrev pub next_attempt : List Attempt → Ran (Option Conn × List Attempt)
next_attempt [] = waits
next_attempt (a ∷ attempts) = attempt a >>= λ conn. returns (conn, attempts)

unfoldable pub http_connect : HttpRequest → List Attempt → Ran (Option Conn × List Attempt)
http_connect req attempts =
    if req.sin_addr == inaddr_none then returns (none, attempts) else next_attempt attempts

-- `handshake` is whether SSL_set_fd and SSL_connect succeed.
unfoldable pub http_ssl_connect : (HttpRequest → Bool) → HttpRequest → ℤ × HttpRequest
http_ssl_connect handshake req =
    if req.ssl_flag == 2
    then (pos 0, req)
    else if handshake req
    then (pos 0, record req { ssl_flag = 2 })
    else (negsuc 0, req)
