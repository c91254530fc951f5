-- ===== src/Server/Closes.antt =====
-- mcstatus/server.py: the sockets that the requests open.
use mcstatus_rust.Prelude.{
  ℕ, zero, suc, ◌-◌, ◌≡◌, refl, ap, ◌∙◌, ◌⊎◌, inl, inr, Bool, true, false, some, arith, Bool-cases,
  ◌==◌,
}
use mcstatus_rust.Prelude.Exec.{
  Exc, Exec, Result, ok, err, not_connected, unbound_local_error, next, ◌>>=◌, catch,
}
use mcstatus_rust.Prelude.Context.{ensure, ensure-exits}
use mcstatus_rust.Prelude.Keeps.{Keeps}
use mcstatus_rust.Io.Text.{Str, Bytes}
use mcstatus_rust.Io.Connection.Socket.{
  Sockets, close, tcp_open, udp_open, with_tcp, with_udp, datagram_socket,
}
use mcstatus_rust.Utils.{after_try, retry_loop, retry}
use mcstatus_rust.Server.Requests.{Outside}

abbrev pub one_more : {A : Type 0} → Result A → ℕ → ℕ
one_more (ok a) n = suc n
one_more (err e) n = n

-- What `socket` documents of the number of open sockets, of a platform on which TCP_NODELAY can be set,
-- and on which a shutdown fails only for a socket that is not connected, and a close never.
pub record Counts {S Socket : Type 0} (open_count : S → ℕ) (net : Sockets S Socket) : Type 0 where
  pub connects :
      (host : Str) (port : ℕ) (s : S)
      → open_count (net.create_connection host port s).1
        ≡ one_more (net.create_connection host port s).0 (open_count s)
  pub sets :
      (socket : Socket) (s : S)
      → (t : S) × (net.set_no_delay socket s ≡ (ok tt, t)) × (open_count t ≡ open_count s)
  pub inet :
      (s : S) → open_count (net.inet_socket s).1 ≡ one_more (net.inet_socket s).0 (open_count s)
  pub inet6 :
      (s : S) → open_count (net.inet6_socket s).1 ≡ one_more (net.inet6_socket s).0 (open_count s)
  pub receives : (socket : Socket) (n k : ℕ) → Keeps (λ s. open_count s ≡ k) (net.recv socket n)
  pub receives_from :
      (socket : Socket) (n k : ℕ) → Keeps (λ s. open_count s ≡ k) (net.recvfrom socket n)
  pub sends :
      (socket : Socket) (raw : Bytes) (k : ℕ)
      → Keeps (λ s. open_count s ≡ k) (net.sendall socket raw)
  pub sends_to :
      (socket : Socket) (raw : Bytes) (host : Str) (port k : ℕ)
      → Keeps (λ s. open_count s ≡ k) (net.sendto socket raw host port)
  pub shuts :
      (socket : Socket) (s : S)
      → (t : S) × ((net.shutdown socket s ≡ (ok tt, t))
          ⊎ (net.shutdown socket s ≡ (err not_connected, t)))
        × (open_count t ≡ open_count s)
  pub closes :
      (socket : Socket) (s : S)
      → (t : S) × (net.close socket s ≡ (ok tt, t)) × (open_count t ≡ open_count s - 1)

-- The random numbers and the clock have to do with no socket.
pub record Apart {S Latency : Type 0} (open_count : S → ℕ) (out : Outside S Latency) : Type 0 where
  pub tokens : (k : ℕ) → Keeps (λ s. open_count s ≡ k) out.random_token
  pub session_ids : (k : ℕ) → Keeps (λ s. open_count s ≡ k) out.random_session_id
  pub clocks : (k : ℕ) → Keeps (λ s. open_count s ≡ k) out.clock

module _ {S A : Type 0} {inv : S → Type 0} (caught : Exc → Bool) where
  Keeps-after_try :
      (p : Result A × S) (again : Exc → Exec S A)
      → inv p.1
      → ((e : Exc) → Keeps inv (again e))
      → inv (after_try caught p again).1
  Keeps-after_try (ok a, s) again h k = h
  Keeps-after_try (err e, s) again h k = elim (Bool-cases (caught e)) [
    | inl c ↦ rw c ((k e).keeps s h)
    | inr c ↦ rw c h
  ]

  Keeps-retry_loop :
      (n : ℕ) (func : Exec S A) (e : Exc) → Keeps inv func → Keeps inv (retry_loop caught n func e)
  unfolding retry_loop
  Keeps-retry_loop zero func e h = record { keeps = λ s i. i }
  Keeps-retry_loop (suc n) func e h = record {
    keeps = λ s i.
        Keeps-after_try (func s) (retry_loop caught n func) (h.keeps s i)
          (λ x. Keeps-retry_loop n func x h);
  }

  pub Keeps-retry : (n : ℕ) (func : Exec S A) → Keeps inv func → Keeps inv (retry caught n func)
  unfolding retry
  Keeps-retry n func h = Keeps-retry_loop n func unbound_local_error h

Result-cases : {A : Type 0} (r : Result A) → ((a : A) × (r ≡ ok a)) ⊎ ((e : Exc) × (r ≡ err e))
Result-cases (ok a) = inl (a, refl)
Result-cases (err e) = inr (e, refl)

module _ {S Socket : Type 0} {open_count : S → ℕ} {net : Sockets S Socket}
    (counts : Counts open_count net) where
  abbrev pub Level : ℕ → S → Type 0
  Level k s = open_count s ≡ k

  closed :
      (socket : Socket) (s : S)
      → (t : S) × (close net (some socket) s ≡ (ok tt, t)) × (open_count t ≡ open_count s - 1)
  unfolding close ◌>>=◌ catch
  closed socket s =
      let (t, shut, e) = counts.shuts socket s in
      let (u, f, less) = counts.closes socket t in
      elim shut [
        | inl g ↦ (u, rw (g, f) refl, less ∙ ap (λ (x : ℕ). x - 1) e)
        | inr g ↦ (u, rw (g, f) refl, less ∙ ap (λ (x : ℕ). x - 1) e)
      ]

  -- What is opened is closed again.
  module _ {A : Type 0} (k : ℕ) (body : Socket → Exec S A)
      (keeps : (socket : Socket) → Keeps (Level (suc k)) (body socket)) where
    closes_after :
        (socket : Socket) (t : S)
        → open_count t ≡ suc k
        → open_count (ensure (body socket) (close net (some socket)) t).1 ≡ k
    closes_after socket t h =
        let (u, e, less) = closed socket (body socket t).1 in
        omega (
          arith,
          ap (λ p. open_count p.1) (ensure-exits (body socket) (close net (some socket)) t u e),
          less,
          (keeps socket).keeps t h,
        )

    level_after :
        (p : Result Socket × S)
        → open_count p.1 ≡ one_more p.0 k
        → open_count (next p (λ socket. ensure (body socket) (close net (some socket)))).1 ≡ k
    level_after (ok socket, t) h = closes_after socket t h
    level_after (err e, t) h = h

    datagram_opens :
        (four : Bool) (s : S)
        → open_count (datagram_socket net four s).1
          ≡ one_more (datagram_socket net four s).0 (open_count s)
    datagram_opens true s = counts.inet s
    datagram_opens false s = counts.inet6 s

    udp_opens :
        (host : Str) (s : S)
        → open_count (udp_open net host s).1 ≡ one_more (udp_open net host s).0 (open_count s)
    unfolding udp_open ◌>>=◌
    udp_opens host s = elim (Result-cases (net.ip_version host)) [
      | inr e ↦ rw (e.1) refl
      | inl e ↦ rw (e.1) (datagram_opens (e.0 == 4) s)
    ]

    tcp_opens :
        (host : Str) (port : ℕ) (s : S) (p : Result Socket × S)
        → net.create_connection host port s ≡ p
        → open_count p.1 ≡ one_more p.0 (open_count s)
        → open_count (tcp_open net host port s).1
          ≡ one_more (tcp_open net host port s).0 (open_count s)
    unfolding tcp_open ◌>>=◌
    tcp_opens host port s (ok socket, t) e h =
        let (u, f, same) = counts.sets socket t in rw (e, f) (same ∙ h)
    tcp_opens host port s (err x, t) e h = rw e h

    pub Keeps-with_tcp : (host : Str) (port : ℕ) → Keeps (Level k) (with_tcp net host port body)
    unfolding with_tcp ◌>>=◌
    Keeps-with_tcp host port = record {
      keeps = λ s h. level_after (tcp_open net host port s) (
          tcp_opens host port s _ refl (counts.connects host port s)
          ∙ ap (one_more (tcp_open net host port s).0) h);
    }

    pub Keeps-with_udp : (host : Str) → Keeps (Level k) (with_udp net host body)
    unfolding with_udp ◌>>=◌
    Keeps-with_udp host = record {
      keeps = λ s h.
          level_after (udp_open net host s)
            (udp_opens host s ∙ ap (one_more (udp_open net host s).0) h);
    }
