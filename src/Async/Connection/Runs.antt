-- ===== src/Async/Connection/Runs.antt =====
-- mcstatus/_protocol/io/connection.py: the asynchronous connections and the synchronous ones.
use mcstatus_rust.Prelude.{
  ℕ, zero, suc, ◌-◌, arith, ◌≡◌, refl, sym, ◌∙◌, ◌≢◌, false, some, [], ◌∷◌, ◌++◌, length, ltb, ◌==◌,
}
use mcstatus_rust.Prelude.Exec.{Exec, Result, ok, err, os_error, ◌>>=◌}
use mcstatus_rust.Io.Text.{Str, Bytes}
use mcstatus_rust.Io.Connection.{tcp_loop, tcp_read, udp_read}
use mcstatus_rust.Io.Connection.Socket.{
  Sockets, tcp_open, with_tcp, close, udp_open, with_udp, tcp_write, udp_write,
}
use mcstatus_rust.Async.Task.{Task, Runs, Runs-pure, Runs-raise, Runs-if, Runs-bind, run_rules}
use mcstatus_rust.Async.Task.Context.{Runs-ensure}
use mcstatus_rust.Async.Connection.{
  AsyncSockets, async_tcp_loop, async_tcp_read, tcp_connect, async_tcp_close, async_with_tcp,
  async_with_udp, udp_connect, async_udp_close, async_tcp_write, async_udp_write, async_udp_read,
}

module _ {S Op : Type 0} {Answer : Op → Type 0} {serve : (op : Op) → Exec S (Answer op)}
    {read : ℕ → Task Op Answer Bytes} {recv : ℕ → Exec S Bytes}
    (h : (n : ℕ) → Runs serve (read n) (recv n)) where
  Runs-tcp_loop :
      (k n : ℕ) (result : Bytes)
      → Runs serve (async_tcp_loop read k n result) (tcp_loop recv k n result)
  unfolding async_tcp_loop tcp_loop
  Runs-tcp_loop zero n result = search run_rules
  Runs-tcp_loop (suc k) n result =
      Runs-if (ltb (length result) n) _ _ _ _
        (Runs-bind _ _ _ _ (h (n - length result)) (λ new.
          Runs-if (length new == 0) _ _ _ _ (Runs-raise os_error)
            (Runs-tcp_loop k n (result ++ new))))
        (Runs-pure result)

  pub Runs-tcp_read : (n : ℕ) → Runs serve (async_tcp_read read n) (tcp_read recv n)
  unfolding async_tcp_read tcp_read
  Runs-tcp_read n = Runs-tcp_loop n n []

-- The operations of the asynchronous streams do what those of the other sockets do.
pub record IsNetwork {S Op Socket : Type 0} {Answer : Op → Type 0}
    (serve : (op : Op) → Exec S (Answer op)) (a : AsyncSockets Op Answer Socket)
    (net : Sockets S Socket) : Type 0 where
  pub opens :
      (host : Str) (port : ℕ) → Runs serve (tcp_connect a host port) (tcp_open net host port)
  pub reads : (socket : Socket) (n : ℕ) → Runs serve (a.read socket n) (net.recv socket n)
  pub writes :
      (socket : Socket) (raw : Bytes)
      → Runs serve (async_tcp_write a socket raw) (tcp_write net socket raw)
  pub closes :
      (socket : Socket) → Runs serve (async_tcp_close a (some socket)) (close net (some socket))

-- The same for datagrams to one address, none of which is empty.
pub record IsDatagrams {S Op Socket : Type 0} {Answer : Op → Type 0}
    (serve : (op : Op) → Exec S (Answer op)) (a : AsyncSockets Op Answer Socket)
    (net : Sockets S Socket) (host : Str) (port : ℕ) : Type 0 where
  pub opens : Runs serve (udp_connect a host port) (udp_open net host)
  pub reads : (socket : Socket) → Runs serve (a.recv socket) (net.recvfrom socket 65535)
  pub no_empty : (socket : Socket) (s t : S) → net.recvfrom socket 65535 s ≢ (ok [], t)
  pub writes :
      (socket : Socket) (raw : Bytes)
      → Runs serve (async_udp_write a socket raw) (udp_write net socket host port raw)
  pub closes :
      (socket : Socket) → Runs serve (async_udp_close a (some socket)) (close net (some socket))

module _ {S : Type 0} (recvfrom : Exec S Bytes) (rounds : ℕ) where
  first_datagram :
      (s : S) (p : Result Bytes × S)
      → recvfrom s ≡ p
      → ((t : S) → p ≢ (ok [], t))
      → udp_read recvfrom (suc rounds) s ≡ p
  unfolding udp_read ◌>>=◌
  first_datagram s (ok [], t) e h = absurd (h t refl)
  first_datagram s (ok (b ∷ bs), t) e h =
      let z : (suc (length bs) == 0) ≡ false = ground arith in rw (e, z) refl
  first_datagram s (err x, t) e h = rw e refl

module _ {S Op Socket : Type 0} {Answer : Op → Type 0} {serve : (op : Op) → Exec S (Answer op)}
    {a : AsyncSockets Op Answer Socket} {net : Sockets S Socket} where
  pub Runs-with_tcp :
      (h : IsNetwork serve a net) {A : Type 0} (host : Str) (port : ℕ)
      (t : Socket → Task Op Answer A) (m : Socket → Exec S A)
      → ((socket : Socket) → Runs serve (t socket) (m socket))
      → Runs serve (async_with_tcp a host port t) (with_tcp net host port m)
  unfolding async_with_tcp with_tcp
  Runs-with_tcp h host port t m k =
      Runs-bind _ _ _ _ (h.opens host port)
        (λ socket. Runs-ensure _ _ _ _ (k socket) (h.closes socket))

  module _ {host : Str} {port : ℕ} (h : IsDatagrams serve a net host port) where
    pub Runs-with_udp :
        {A : Type 0} (t : Socket → Task Op Answer A) (m : Socket → Exec S A)
        → ((socket : Socket) → Runs serve (t socket) (m socket))
        → Runs serve (async_with_udp a host port t) (with_udp net host m)
    unfolding async_with_udp with_udp
    Runs-with_udp t m k =
        Runs-bind _ _ _ _ h.opens (λ socket. Runs-ensure _ _ _ _ (k socket) (h.closes socket))

    pub Runs-udp_read :
        (rounds : ℕ) (socket : Socket) (n : ℕ)
        → Runs serve (async_udp_read a socket n) (udp_read (net.recvfrom socket 65535) (suc rounds))
    unfolding async_udp_read
    Runs-udp_read rounds socket n = record {
      at = λ s.
          (h.reads socket).at s
          ∙ sym (first_datagram (net.recvfrom socket 65535) rounds s _ refl (h.no_empty socket s));
    }
