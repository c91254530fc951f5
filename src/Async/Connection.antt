-- ===== src/Async/Connection.antt =====
-- mcstatus/_protocol/io/connection.py: the asynchronous connections. `asyncio` and `asyncio_dgram` are
-- parameters, and so are their timeouts, which are among what an operation raises.
pub mod Runs
use mcstatus_rust.Prelude.{
  ℕ, zero, suc, ◌-◌, Bool, true, false, Option, none, some, List, [], ◌∷◌, ◌++◌, length, ltb, ◌==◌,
  if◌then◌else◌,
}
use mcstatus_rust.Prelude.Exec.{os_error, out_of_rounds}
use mcstatus_rust.Io.Text.{Str, Bytes}
use mcstatus_rust.Async.Task.{Task, pure, raise, ◌>>=◌, ◌>>◌}
use mcstatus_rust.Async.Task.Context.{ensure}
use mcstatus_rust.Async.Reader.{AsyncReader}

-- What the connections await, and the calls of a stream that they do not wait for.
pub record AsyncSockets (Op : Type 0) (Answer : Op → Type 0) (Socket : Type 0) : Type 0 where
  -- `asyncio.open_connection`, with both its streams in one
  pub open_connection : Str → ℕ → Task Op Answer Socket
  pub set_no_delay : Socket → Task Op Answer (Unit {0})
  pub read : Socket → ℕ → Task Op Answer Bytes
  pub write : Socket → Bytes → Task Op Answer (Unit {0})
  pub drain : Socket → Task Op Answer (Unit {0})
  pub close : Socket → Task Op Answer (Unit {0})
  pub wait_closed : Socket → Task Op Answer (Unit {0})
  -- `asyncio_dgram.connect`, and the methods of its stream
  pub connect_dgram : Str → ℕ → Task Op Answer Socket
  pub recv : Socket → Task Op Answer Bytes
  pub send : Socket → Bytes → Task Op Answer (Unit {0})
  pub close_dgram : Socket → Task Op Answer (Unit {0})

module _ {Op : Type 0} {Answer : Op → Type 0} (read : ℕ → Task Op Answer Bytes) where
  -- The loop of `TCPAsyncSocketConnection.read`: rounds left, what is asked for and `result`. The two
  -- errors of the end of the stream differ in their messages only.
  unfoldable pub async_tcp_loop : ℕ → ℕ → Bytes → Task Op Answer Bytes
  async_tcp_loop zero length_ result =
      if ltb (length result) length_ then raise out_of_rounds else pure result
  async_tcp_loop (suc k) length_ result =
      let more = (do
        new ← read (length_ - length result)
        let again = async_tcp_loop k length_ (result ++ new)
        if length new == 0 then raise os_error else again) in
      if ltb (length result) length_ then more else pure result

  -- A round adds a byte at least, so as many rounds as bytes are enough.
  unfoldable pub async_tcp_read : ℕ → Task Op Answer Bytes
  unfolding async_tcp_loop
  async_tcp_read n = async_tcp_loop n n []

module _ {Op : Type 0} {Answer : Op → Type 0} {Socket : Type 0}
    (net : AsyncSockets Op Answer Socket) where
  -- `TCPAsyncSocketConnection.connect`
  unfoldable pub tcp_connect : Str → ℕ → Task Op Answer Socket
  tcp_connect host port = do
    socket ← net.open_connection host port
    net.set_no_delay socket
    pure socket

  -- `TCPAsyncSocketConnection.write`
  unfoldable pub async_tcp_write : Socket → Bytes → Task Op Answer (Unit {0})
  async_tcp_write socket raw = do net.write socket raw; net.drain socket

  -- `TCPAsyncSocketConnection.close`
  unfoldable pub async_tcp_close : Option Socket → Task Op Answer (Unit {0})
  async_tcp_close none = pure tt
  async_tcp_close (some socket) = do net.close socket; net.wait_closed socket

  -- `UDPAsyncSocketConnection.connect`
  unfoldable pub udp_connect : Str → ℕ → Task Op Answer Socket
  udp_connect host port = net.connect_dgram host port

  -- `UDPAsyncSocketConnection.read`: one datagram, and it may be empty.
  unfoldable pub async_udp_read : Socket → ℕ → Task Op Answer Bytes
  async_udp_read socket length_ = net.recv socket

  -- `UDPAsyncSocketConnection.write`
  unfoldable pub async_udp_write : Socket → Bytes → Task Op Answer (Unit {0})
  async_udp_write socket raw = net.send socket raw

  -- `UDPAsyncSocketConnection.close`
  unfoldable pub async_udp_close : Option Socket → Task Op Answer (Unit {0})
  async_udp_close none = pure tt
  async_udp_close (some socket) = net.close_dgram socket

  -- `async with TCPAsyncSocketConnection((host, port)) as connection:`
  unfoldable pub async_with_tcp :
      {A : Type 0} → Str → ℕ → (Socket → Task Op Answer A) → Task Op Answer A
  unfolding tcp_connect async_tcp_close
  async_with_tcp host port body = do
    socket ← tcp_connect host port
    ensure (body socket) (async_tcp_close (some socket))

  -- `async with UDPAsyncSocketConnection((host, port)) as connection:`
  unfoldable pub async_with_udp :
      {A : Type 0} → Str → ℕ → (Socket → Task Op Answer A) → Task Op Answer A
  unfolding udp_connect async_udp_close
  async_with_udp host port body = do
    socket ← udp_connect host port
    ensure (body socket) (async_udp_close (some socket))
