-- ===== src/Tests/World.antt =====
-- A small world of sockets for the tests, and the same world behind `await`.
use mcstatus_rust.Prelude.{
  ℕ, suc, ◌-◌, ◌≡◌, ◌≢◌, refl, inl, Option, none, [], ◌∷◌, ◌++◌, take, drop,
}
use mcstatus_rust.Prelude.Int.{ℤ, pos}
use mcstatus_rust.Prelude.Exec.{Exec, Result, ok, err, os_error, value_error, lift, catch, ◌>>=◌}
use mcstatus_rust.Io.Text.{Str, Bytes}
use mcstatus_rust.Io.Connection.Socket.{Sockets, tcp_open, tcp_write, udp_open, udp_write, close}
use mcstatus_rust.Server.Requests.{Outside}
use mcstatus_rust.Server.Closes.{Counts, Apart}
use mcstatus_rust.Async.Task
use mcstatus_rust.Async.Task.{Runs, Runs-perform, run, perform}
use mcstatus_rust.Async.Connection.{
  AsyncSockets, tcp_connect, async_tcp_write, async_tcp_close, udp_connect, async_udp_write,
  async_udp_close,
}
use mcstatus_rust.Async.Connection.Runs.{IsNetwork, IsDatagrams}
use mcstatus_rust.Async.Net.{AsyncResolver}
use mcstatus_rust.Async.Net.Runs.{IsResolver}
use mcstatus_rust.Async.Server.{AsyncOutside}
use mcstatus_rust.Async.Server.Runs.{IsOutside}
use mcstatus_rust.Tests.Network.{libraries}

pub record World : Type 0 where
  pub incoming : Bytes
  pub sent : Bytes
  pub open_count : ℕ

abbrev pub opened : Exec World ℕ
opened w = (ok w.open_count, record w { open_count = suc w.open_count })

abbrev pub sending : Bytes → Exec World (Unit {0})
sending raw w = (ok tt, record w { sent = w.sent ++ raw })

abbrev pub datagram : Bytes → World → Result Bytes × World
datagram [] w = (err os_error, w)
datagram (b ∷ bs) w = (ok (b ∷ bs), record w { incoming = [] })

abbrev pub nothing : Exec World (Unit {0})
nothing w = (ok tt, w)

abbrev pub sockets : Sockets World ℕ
sockets = record {
  create_connection = λ host port. opened;
  set_no_delay = λ socket. nothing;
  recv = λ socket n w. (ok (take n w.incoming), record w { incoming = drop n w.incoming });
  sendall = λ socket. sending;
  ip_version = λ host. ok 4;
  inet_socket = opened;
  inet6_socket = opened;
  recvfrom = λ socket n w. datagram w.incoming w;
  sendto = λ socket raw host port. sending raw;
  shutdown = λ socket. nothing;
  close = λ socket w. (ok tt, record w { open_count = w.open_count - 1 });
}

abbrev pub outside : Outside World ℕ
outside = record {
  random_token = λ w. (ok (pos 7), w);
  random_session_id = λ w. (ok 1, w);
  clock = λ w. (ok 42, w);
  loads = λ s. err value_error;
  decimal = λ c. none;
}

keeps_datagram :
    (k : ℕ) (raw : Bytes) (w : World) → w.open_count ≡ k → (datagram raw w).1.open_count ≡ k
keeps_datagram k [] w h = h
keeps_datagram k (b ∷ bs) w h = h

pub sockets-Counts : Counts (λ (w : World). w.open_count) sockets
sockets-Counts = record {
  connects = λ host port s. refl;
  sets = λ socket s. (s, refl, refl);
  inet = λ s. refl;
  inet6 = λ s. refl;
  receives = λ socket n k. record { keeps = λ s h. h };
  receives_from = λ socket n k. record { keeps = λ s h. keeps_datagram k s.incoming s h };
  sends = λ socket raw k. record { keeps = λ s h. h };
  sends_to = λ socket raw host port k. record { keeps = λ s h. h };
  shuts = λ socket s. (s, inl refl, refl);
  closes = λ socket s. (_, refl, refl);
}

pub outside-Apart : Apart (λ (w : World). w.open_count) outside
outside-Apart = record {
  tokens = λ k. record { keeps = λ s h. h };
  session_ids = λ k. record { keeps = λ s h. h };
  clocks = λ k. record { keeps = λ s h. h };
}

-- An operation is the method that serves it.
pub data Op (S : Type 0) : Type 0 where
  for_number : Exec S ℕ → Op S
  for_integer : Exec S ℤ → Op S
  for_bytes : Exec S Bytes → Op S
  for_found : Exec S (Str × ℕ) → Op S
  for_cache : Exec S (Option ℕ) → Op S
  for_unit : Exec S (Unit {0}) → Op S

module _ {S : Type 0} where
  abbrev pub Answer : Op S → Type 0
  Answer (for_number m) = ℕ
  Answer (for_integer m) = ℤ
  Answer (for_bytes m) = Bytes
  Answer (for_found m) = Str × ℕ
  Answer (for_cache m) = Option ℕ
  Answer (for_unit m) = Unit {0}

  abbrev pub serve : (op : Op S) → Exec S (Answer op)
  serve (for_number m) = m
  serve (for_integer m) = m
  serve (for_bytes m) = m
  serve (for_found m) = m
  serve (for_cache m) = m
  serve (for_unit m) = m

abbrev pub async_sockets : AsyncSockets (Op World) Answer ℕ
async_sockets = record {
  open_connection = λ host port. perform (for_number (sockets.create_connection host port));
  set_no_delay = λ socket. perform (for_unit (sockets.set_no_delay socket));
  read = λ socket n. perform (for_bytes (sockets.recv socket n));
  write = λ socket raw. perform (for_unit (sockets.sendall socket raw));
  drain = λ socket. perform (for_unit nothing);
  close = λ socket. perform (for_unit (sockets.close socket));
  wait_closed = λ socket. perform (for_unit nothing);
  connect_dgram = λ host port. perform (for_number sockets.inet_socket);
  recv = λ socket. perform (for_bytes (sockets.recvfrom socket 65535));
  send = λ socket raw. perform (for_unit (sockets.sendto socket raw [] 0));
  close_dgram = λ socket. perform (for_unit (sockets.close socket));
}

abbrev pub async_outside : AsyncOutside (Op World) Answer ℕ
async_outside = record {
  random_token = perform (for_integer outside.random_token);
  random_session_id = perform (for_number outside.random_session_id);
  clock = perform (for_number outside.clock);
  loads = outside.loads;
  decimal = outside.decimal;
}

pub outside-IsOutside : IsOutside serve async_outside outside
outside-IsOutside = record {
  tokens = Runs-perform (for_integer outside.random_token);
  session_ids = Runs-perform (for_number outside.random_session_id);
  clocks = Runs-perform (for_number outside.clock);
  loads = refl;
  decimal = refl;
}

pub sockets-IsNetwork : IsNetwork serve async_sockets sockets
unfolding tcp_connect tcp_open async_tcp_write tcp_write async_tcp_close close ◌>>=◌ catch
    Task.◌>>=◌ run perform
sockets-IsNetwork = record {
  opens = λ host port. record { at = λ s. refl };
  reads = λ socket n. Runs-perform (for_bytes (sockets.recv socket n));
  writes = λ socket raw. record { at = λ s. refl };
  closes = λ socket. record { at = λ s. refl };
}

no_empty_datagram : (raw : Bytes) (w t : World) → datagram raw w ≢ (ok [], t)
no_empty_datagram [] w t h = cc
no_empty_datagram (b ∷ bs) w t h = cc

pub sockets-IsDatagrams :
    (host : Str) (port : ℕ) → IsDatagrams serve async_sockets sockets host port
unfolding udp_connect udp_open async_udp_write udp_write async_udp_close close ◌>>=◌ catch
    Task.◌>>=◌ run perform
sockets-IsDatagrams host port = record {
  opens = record { at = λ s. refl };
  reads = λ socket. Runs-perform (for_bytes (sockets.recvfrom socket 65535));
  no_empty = λ socket s. no_empty_datagram s.incoming s;
  writes = λ socket raw. record { at = λ s. refl };
  closes = λ socket. record { at = λ s. refl };
}

module _ {S : Type 0} where
  abbrev pub resolver : AsyncResolver (Op S) Answer
  resolver = record {
    resolve_a = λ name. perform (for_bytes (lift (libraries.resolve_a name)));
    resolve_srv = λ name. perform (for_found (lift (libraries.resolve_srv name)));
  }

  pub resolver-IsResolver : IsResolver serve resolver libraries
  resolver-IsResolver = record {
    resolves_a = λ name. Runs-perform (for_bytes (lift (libraries.resolve_a name)));
    resolves_srv = λ name. Runs-perform (for_found (lift (libraries.resolve_srv name)));
  }
