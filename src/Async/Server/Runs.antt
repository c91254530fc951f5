-- ===== src/Async/Server/Runs.antt =====
-- mcstatus/server.py: the asynchronous requests and the synchronous ones.
use mcstatus_rust.Prelude.{ℕ, suc, ◌≡◌, Option, none, some}
use mcstatus_rust.Prelude.Int.{ℤ, pos}
use mcstatus_rust.Prelude.Exec
use mcstatus_rust.Prelude.Exec.{Exec, ok, bind_result}
use mcstatus_rust.Io.Text.{Str}
use mcstatus_rust.Io.Connection.Socket.{Sockets}
use mcstatus_rust.Net.{Libraries, Address}
use mcstatus_rust.Server.{java_default_port, lookup_java, lookup_legacy}
use mcstatus_rust.Server.Requests.{
  Outside, token_or_random, tcp_connection, udp_connection, try_ping, ping, try_status, status,
  try_query, retry_query, legacy_status,
}
use mcstatus_rust.Async.Task.{Runs, Runs-pure, Runs-lift, Runs-bind}
use mcstatus_rust.Async.Task.Context.{Runs-retry}
use mcstatus_rust.Async.Connection.{AsyncSockets}
use mcstatus_rust.Async.Connection.Runs.{
  IsNetwork, IsDatagrams, Runs-with_tcp, Runs-with_udp, Runs-tcp_read, Runs-udp_read,
}
use mcstatus_rust.Async.Client.{AsyncConnection}
use mcstatus_rust.Async.Client.Runs.{
  IsConnection, Runs-java_handshake, Runs-test_ping, Runs-java_read_status, Runs-query_handshake,
  Runs-read_query, Runs-legacy_read_status,
}
use mcstatus_rust.Client.Java.{Connection}
use mcstatus_rust.Async.Net.{AsyncResolver}
use mcstatus_rust.Async.Net.Runs.{IsResolver, Runs-bind_result, Runs-minecraft_srv_address_lookup}
use mcstatus_rust.Async.Server.{
  AsyncOutside, async_token_or_random, async_tcp_connection, async_udp_connection, try_async_ping,
  async_ping, try_async_status, async_status, try_async_query, retry_async_query,
  legacy_async_status, async_lookup_java, async_lookup_legacy,
}

-- The random numbers and the clock are the same, and so are the tables.
pub record IsOutside {S Op Latency : Type 0} {Answer : Op → Type 0}
    (serve : (op : Op) → Exec S (Answer op)) (a : AsyncOutside Op Answer Latency)
    (out : Outside S Latency) : Type 0 where
  pub tokens : Runs serve a.random_token out.random_token
  pub session_ids : Runs serve a.random_session_id out.random_session_id
  pub clocks : Runs serve a.clock out.clock
  pub loads : a.loads ≡ out.loads
  pub decimal : a.decimal ≡ out.decimal

module _ {S Op Latency : Type 0} {Answer : Op → Type 0} {serve : (op : Op) → Exec S (Answer op)}
    {o : AsyncOutside Op Answer Latency} {out : Outside S Latency}
    (outside : IsOutside serve o out) where
  Runs-token_or_random :
      (t : Option ℤ) → Runs serve (async_token_or_random o t) (token_or_random out t)
  Runs-token_or_random none = outside.tokens
  Runs-token_or_random (some t) = Runs-pure t

  module _ {c : AsyncConnection Op Answer} {d : Connection S} (h : IsConnection serve c d) where
    Runs-try_ping :
        (server : Address) (version : ℤ) (t : Option ℤ)
        → Runs serve (try_async_ping o c server version t) (try_ping out d server version t)
    unfolding try_async_ping try_ping
    Runs-try_ping server version t = Runs-bind _ _ _ _ (Runs-token_or_random t) (λ token.
        Runs-bind _ _ _ _ (Runs-java_handshake h tt version server)
          (λ _. Runs-bind _ _ _ _ outside.clocks (λ latency. Runs-test_ping h latency token)))

    Runs-try_status :
        (server : Address) (version : ℤ) (t : Option ℤ)
        → Runs serve (try_async_status o c server version t) (try_status out d server version t)
    unfolding try_async_status try_status
    Runs-try_status server version t =
        rw (outside.loads, outside.decimal)
          (Runs-bind _ _ _ _ (Runs-token_or_random t) (λ token.
            Runs-bind _ _ _ _ (Runs-java_handshake h tt version server) (λ _.
              Runs-bind _ _ _ _ outside.clocks
                (λ latency. Runs-java_read_status h latency out.decimal out.loads))))

    Runs-try_query : Runs serve (try_async_query o c) (try_query out d)
    unfolding try_async_query try_query
    Runs-try_query = rw outside.decimal (
        Runs-bind _ _ _ _ outside.session_ids (λ id.
          Runs-bind _ _ _ _ (Runs-query_handshake h tt id out.decimal) (λ challenge.
            Runs-bind _ _ _ _ outside.session_ids
              (λ again. Runs-read_query h tt again out.decimal challenge))))

module _ {S Op Socket : Type 0} {Answer : Op → Type 0} {serve : (op : Op) → Exec S (Answer op)}
    {a : AsyncSockets Op Answer Socket} {net : Sockets S Socket} where
  tcp-IsConnection :
      (network : IsNetwork serve a net) (socket : Socket)
      → IsConnection serve (async_tcp_connection a socket) (tcp_connection net socket)
  tcp-IsConnection network socket = record {
    reader = record { reads = Runs-tcp_read (network.reads socket) };
    writer = record { writes = network.writes socket };
  }

  udp-IsConnection :
      (rounds : ℕ) (host : Str) (port : ℕ) (datagrams : IsDatagrams serve a net host port)
      (socket : Socket)
      → IsConnection serve
          (async_udp_connection a socket)
          (udp_connection net (suc rounds) host port socket)
  udp-IsConnection rounds host port datagrams socket = record {
    reader = record { reads = Runs-udp_read datagrams rounds socket };
    writer = record { writes = datagrams.writes socket };
  }

module _ {S Op Socket Latency : Type 0} {Answer : Op → Type 0}
    {serve : (op : Op) → Exec S (Answer op)} {a : AsyncSockets Op Answer Socket}
    {net : Sockets S Socket} {o : AsyncOutside Op Answer Latency} {out : Outside S Latency}
    (outside : IsOutside serve o out) where
  module _ (network : IsNetwork serve a net) where
    Runs-ping :
        (server : Address) (tries : ℕ) (version : ℤ) (t : Option ℤ)
        → Runs serve (async_ping a o server tries version t) (ping net out server tries version t)
    unfolding async_ping ping
    Runs-ping server tries version t = Runs-with_tcp network server.host server.port _ _ (λ socket.
        Runs-retry _ tries _ _
          (Runs-try_ping outside (tcp-IsConnection network socket) server version t))

    pub Runs-status :
        (server : Address) (tries : ℕ) (version : ℤ) (t : Option ℤ)
        → Runs serve
            (async_status a o server tries version t)
            (status net out server tries version t)
    unfolding async_status status
    Runs-status server tries version t =
        Runs-with_tcp network server.host server.port _ _ (λ socket.
          Runs-retry _ tries _ _
            (Runs-try_status outside (tcp-IsConnection network socket) server version t))

    Runs-legacy_status :
        (server : Address) (tries : ℕ)
        → Runs serve (legacy_async_status a o server tries) (legacy_status net out server tries)
    unfolding legacy_async_status legacy_status
    Runs-legacy_status server tries = rw outside.decimal (
        Runs-retry _ tries _ _ (
          Runs-with_tcp network server.host server.port _ _ (λ socket.
            Runs-bind _ _ _ _ outside.clocks (λ latency.
              Runs-legacy_read_status (tcp-IsConnection network socket) latency out.decimal))))

    -- Run to their ends, `async_ping`, `async_status` and the legacy `async_status` do what `ping`,
    -- `status` and the legacy `status` do, their retries and the closing of the connection included, for
    -- streams, random numbers and a clock that do what those of the synchronous requests do.
    pub requests-Runs :
        (server : Address) (tries : ℕ) (version : ℤ) (t : Option ℤ)
        → Runs serve (async_ping a o server tries version t) (ping net out server tries version t)
          × Runs serve
              (async_status a o server tries version t)
              (status net out server tries version t)
          × Runs serve (legacy_async_status a o server tries) (legacy_status net out server tries)
    requests-Runs server tries version t = (
      Runs-ping server tries version t,
      Runs-status server tries version t,
      Runs-legacy_status server tries,
    )

  module _ (rounds : ℕ) (server : Address)
      (datagrams : IsDatagrams serve a net server.host server.port) where
    -- The same of the query, for datagrams that are never empty.
    pub retry_query-Runs :
        (tries : ℕ)
        → Runs serve
            (retry_async_query a o server tries)
            (retry_query net out (suc rounds) server tries)
    unfolding retry_async_query retry_query
    retry_query-Runs tries = Runs-retry _ tries _ _ (
        Runs-with_udp datagrams _ _ (λ socket.
          Runs-try_query outside
            (udp-IsConnection rounds server.host server.port datagrams socket)))

module _ {S Op : Type 0} {Answer : Op → Type 0} {serve : (op : Op) → Exec S (Answer op)}
    {dns : AsyncResolver Op Answer} {lib : Libraries} (h : IsResolver serve dns lib) where
  Runs-lookup_legacy :
      (string : Str)
      → Runs serve (async_lookup_legacy dns lib string) (Exec.lift (lookup_legacy lib string))
  unfolding async_lookup_legacy lookup_legacy
  Runs-lookup_legacy string =
      Runs-bind_result _ _ _ _
        (Runs-minecraft_srv_address_lookup h (some (pos java_default_port)) string)
        (λ addr. Runs-lift _)

  Runs-lookup_java :
      (string : Str)
      → Runs serve (async_lookup_java dns lib string) (Exec.lift (lookup_java lib string))
  unfolding async_lookup_java lookup_java
  Runs-lookup_java string =
      Runs-bind_result _ _ _ _
        (Runs-minecraft_srv_address_lookup h (some (pos java_default_port)) string)
        (λ addr. Runs-lift _)

  -- Run to its end, `async_lookup` of a Java and of a legacy server gives what `lookup` gives, for a
  -- resolver that gives the same answers.
  pub lookups-Runs :
      (string : Str)
      → Runs serve (async_lookup_java dns lib string) (Exec.lift (lookup_java lib string))
        × Runs serve (async_lookup_legacy dns lib string) (Exec.lift (lookup_legacy lib string))
  lookups-Runs string = (Runs-lookup_java string, Runs-lookup_legacy string)
