-- ===== src/Io/Connection/Socket.antt =====
-- mcstatus/_protocol/io/connection.py: the life of a synchronous connection. The module `socket` is a
-- parameter.
use mcstatus_rust.Prelude.{ℕ, Bool, true, false, Option, none, some, ◌==◌}
use mcstatus_rust.Prelude.Exec.{
  Exc, Exec, Result, not_connected, pure, raise, lift, catch, ◌>>=◌, ◌>>◌,
}
use mcstatus_rust.Prelude.Context.{ensure}
use mcstatus_rust.Io.Text.{Str, Bytes}
use mcstatus_rust.Io.Reader.{Reader}
use mcstatus_rust.Io.Connection.{tcp_reader, udp_read}

-- The calls of `socket` over a state of the outside, and `ip_address(host).version`. Timeouts are
-- among what a call raises.
pub record Sockets (S Socket : Type 0) : Type 0 where
  pub create_connection : Str → ℕ → Exec S Socket
  pub set_no_delay : Socket → Exec S (Unit {0})
  pub recv : Socket → ℕ → Exec S Bytes
  pub sendall : Socket → Bytes → Exec S (Unit {0})
  pub ip_version : Str → Result ℕ
  -- `socket(AF_INET or AF_INET6, SOCK_DGRAM)`
  pub inet_socket : Exec S Socket
  pub inet6_socket : Exec S Socket
  pub recvfrom : Socket → ℕ → Exec S Bytes
  pub sendto : Socket → Bytes → Str → ℕ → Exec S (Unit {0})
  pub shutdown : Socket → Exec S (Unit {0})
  pub close : Socket → Exec S (Unit {0})

-- `if exception.errno != errno.ENOTCONN: raise`
abbrev pub ignore_not_connected : {S : Type 0} → Exc → Exec S (Unit {0})
ignore_not_connected not_connected = pure tt
ignore_not_connected e = raise e

module _ {S Socket : Type 0} (net : Sockets S Socket) where
  -- `_SocketConnection.close`
  unfoldable pub close : Option Socket → Exec S (Unit {0})
  close none = pure tt
  close (some socket) = do catch (net.shutdown socket) ignore_not_connected; net.close socket

  -- `TCPSocketConnection.__init__`
  unfoldable pub tcp_open : Str → ℕ → Exec S Socket
  tcp_open host port = do
    socket ← net.create_connection host port
    net.set_no_delay socket
    pure socket

  -- By whether the version is 4.
  abbrev pub datagram_socket : Bool → Exec S Socket
  datagram_socket true = net.inet_socket
  datagram_socket false = net.inet6_socket

  -- `UDPSocketConnection.__init__`
  unfoldable pub udp_open : Str → Exec S Socket
  udp_open host = do version ← lift (net.ip_version host); datagram_socket (version == 4)

  -- `read` and `write` of both connections; the rounds bound the empty datagrams that are skipped.
  abbrev pub tcp_socket_reader : Socket → Reader S
  tcp_socket_reader socket = tcp_reader (net.recv socket)

  unfoldable pub tcp_write : Socket → Bytes → Exec S (Unit {0})
  tcp_write socket raw = net.sendall socket raw

  abbrev pub udp_socket_reader : Socket → ℕ → Reader S
  udp_socket_reader socket rounds = record {
    read = λ n. udp_read (net.recvfrom socket 65535) rounds;
  }

  unfoldable pub udp_write : Socket → Str → ℕ → Bytes → Exec S (Unit {0})
  udp_write socket host port raw = net.sendto socket raw host port

  -- `with TCPSocketConnection((host, port)) as connection:`
  unfoldable pub with_tcp : {A : Type 0} → Str → ℕ → (Socket → Exec S A) → Exec S A
  unfolding tcp_open close ensure
  with_tcp host port body = do
    socket ← tcp_open host port
    ensure (body socket) (close (some socket))

  -- `with UDPSocketConnection((host, port)) as connection:`
  unfoldable pub with_udp : {A : Type 0} → Str → (Socket → Exec S A) → Exec S A
  unfolding udp_open close ensure
  with_udp host body = do socket ← udp_open host; ensure (body socket) (close (some socket))
