-- ===== src/Io/Connection.antt =====
-- mcstatus/_protocol/io/connection.py: `read` of the TCP and the UDP connections. The socket is a
-- parameter: `recv n` gives up to `n` bytes, and none at the end of the stream.
pub mod Laws
pub mod Socket
use mcstatus_rust.Prelude.{
  ℕ, zero, suc, ◌-◌, Bool, true, false, List, [], ◌∷◌, ◌++◌, length, ltb, ◌==◌, if◌then◌else◌,
}
use mcstatus_rust.Prelude.Exec.{Exec, os_error, out_of_rounds, pure, raise, ◌>>=◌, ◌>>◌}
use mcstatus_rust.Io.Text.{Bytes}
use mcstatus_rust.Io.Reader.{Reader}

module _ {S : Type 0} (recv : ℕ → Exec S Bytes) where
  -- The loop of `TCPSocketConnection.read`: rounds left, what is asked for and `result`.
  unfoldable pub tcp_loop : ℕ → ℕ → Bytes → Exec S Bytes
  tcp_loop zero length_ result =
      if ltb (length result) length_ then raise out_of_rounds else pure result
  tcp_loop (suc k) length_ result =
      let more = (do
        new ← recv (length_ - length result)
        let again = tcp_loop k length_ (result ++ new)
        if length new == 0 then raise os_error else again) in
      if ltb (length result) length_ then more else pure result

  -- A round adds a byte at least, so as many rounds as bytes are enough.
  unfoldable pub tcp_read : ℕ → Exec S Bytes
  unfolding tcp_loop
  tcp_read n = tcp_loop n n []

  abbrev pub tcp_reader : Reader S
  tcp_reader = record { read = tcp_read }

-- `UDPSocketConnection.read`: datagrams are received until one is not empty. The rounds bound how
-- many are looked at.
module _ {S : Type 0} (recvfrom : Exec S Bytes) where
  unfoldable pub udp_read : ℕ → Exec S Bytes
  udp_read zero = raise out_of_rounds
  udp_read (suc k) = do
    result ← recvfrom
    let again = udp_read k
    if length result == 0 then again else pure result
