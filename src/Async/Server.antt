-- ===== src/Async/Server.antt =====
-- mcstatus/server.py: the asynchronous requests.
pub mod Runs
use mcstatus_rust.Prelude.{ℕ, Option, none, some}
use mcstatus_rust.Prelude.Int.{ℤ, pos}
use mcstatus_rust.Prelude.Exec.{Result, ok}
use mcstatus_rust.Io.Text.{Str, Bytes}
use mcstatus_rust.Net.{Libraries, Address, address}
use mcstatus_rust.Server.{JavaServer, java_default_port, init_server, init_java}
use mcstatus_rust.Server.Requests.{is_exception}
use mcstatus_rust.Client.Legacy.{parse_bedrock}
use mcstatus_rust.Client.Bedrock.{request_status_data}
use mcstatus_rust.Response.Status.{RawJavaResponse, JavaStatusResponse}
use mcstatus_rust.Response.Query.{QueryResponse}
use mcstatus_rust.Response.Legacy.{LegacyStatusResponse}
use mcstatus_rust.Response.Bedrock.{BedrockStatusResponse}
use mcstatus_rust.Async.Task.{Task, pure, lift, ◌>>=◌, ◌>>◌}
use mcstatus_rust.Async.Task.Context.{ensure, async_retry}
use mcstatus_rust.Async.Connection.{
  AsyncSockets, async_tcp_read, async_tcp_write, async_udp_read, async_udp_write, async_with_tcp,
  async_with_udp,
}
use mcstatus_rust.Async.Client.{
  AsyncConnection, java_handshake, test_ping, java_read_status, query_handshake, read_query,
  legacy_read_status,
}
use mcstatus_rust.Async.Net.{AsyncResolver, async_minecraft_srv_address_lookup}

-- The random numbers, the clock, JSON and decimal digits, as `Server.Requests.Outside`.
pub record AsyncOutside (Op : Type 0) (Answer : Op → Type 0) (Latency : Type 0) : Type 0 where
  pub random_token : Task Op Answer ℤ
  pub random_session_id : Task Op Answer ℕ
  pub clock : Task Op Answer Latency
  pub loads : Str → Result RawJavaResponse
  pub decimal : ℕ → Option ℕ

module _ {Op : Type 0} {Answer : Op → Type 0} {Socket : Type 0}
    (net : AsyncSockets Op Answer Socket) where
  abbrev pub async_tcp_connection : Socket → AsyncConnection Op Answer
  async_tcp_connection socket = record {
    reader = record { read = async_tcp_read (net.read socket) };
    writer = record { write = async_tcp_write net socket };
  }

  abbrev pub async_udp_connection : Socket → AsyncConnection Op Answer
  async_udp_connection socket = record {
    reader = record { read = async_udp_read net socket };
    writer = record { write = async_udp_write net socket };
  }

module _ {Op : Type 0} {Answer : Op → Type 0} {Latency : Type 0}
    (out : AsyncOutside Op Answer Latency) where
  abbrev pub async_token_or_random : Option ℤ → Task Op Answer ℤ
  async_token_or_random none = out.random_token
  async_token_or_random (some ping_token) = pure ping_token

  -- One attempt of `_retry_async_ping`.
  unfoldable pub try_async_ping :
      AsyncConnection Op Answer → Address → ℤ → Option ℤ → Task Op Answer Latency
  try_async_ping connection server version ping_token = do
    token ← async_token_or_random ping_token
    java_handshake connection version server
    latency ← out.clock
    test_ping connection latency token

  -- One attempt of `_retry_async_status`.
  unfoldable pub try_async_status :
      AsyncConnection Op Answer
      → Address
      → ℤ
      → Option ℤ
      → Task Op Answer (JavaStatusResponse Latency)
  try_async_status connection server version ping_token = do
    token ← async_token_or_random ping_token
    java_handshake connection version server
    latency ← out.clock
    java_read_status connection latency out.decimal out.loads

  -- One attempt of `_retry_async_query`, behind its connection.
  unfoldable pub try_async_query : AsyncConnection Op Answer → Task Op Answer QueryResponse
  try_async_query connection = do
    id ← out.random_session_id
    challenge ← query_handshake connection id out.decimal
    id' ← out.random_session_id
    read_query connection id' out.decimal challenge

module _ {Op : Type 0} {Answer : Op → Type 0} {Socket Latency : Type 0}
    (net : AsyncSockets Op Answer Socket) (out : AsyncOutside Op Answer Latency) where
  -- `JavaServer.async_ping`: the attempts share one connection.
  unfoldable pub async_ping : Address → ℕ → ℤ → Option ℤ → Task Op Answer Latency
  unfolding try_async_ping
  async_ping server tries version ping_token = async_with_tcp net server.host server.port (λ socket.
      async_retry is_exception tries
        (try_async_ping out (async_tcp_connection net socket) server version ping_token))

  -- `JavaServer.async_status`
  unfoldable pub async_status :
      Address → ℕ → ℤ → Option ℤ → Task Op Answer (JavaStatusResponse Latency)
  unfolding try_async_status
  async_status server tries version ping_token =
      async_with_tcp net server.host server.port (λ socket.
        async_retry is_exception tries
          (try_async_status out (async_tcp_connection net socket) server version ping_token))

  -- `_retry_async_query`: each attempt has a connection of its own.
  unfoldable pub retry_async_query : Address → ℕ → Task Op Answer QueryResponse
  unfolding try_async_query
  retry_async_query server tries = async_retry is_exception tries (
      async_with_udp net server.host server.port
        (λ socket. try_async_query out (async_udp_connection net socket)))

  -- `JavaServer.async_query`, over `str(await self.address.async_resolve_ip())`.
  unfoldable pub async_query : Task Op Answer Str → ℕ → ℕ → Task Op Answer QueryResponse
  unfolding retry_async_query
  async_query resolve_ip query_port tries = do
    ip ← resolve_ip
    addr ← lift (address ip (pos query_port))
    retry_async_query addr tries

  -- `LegacyServer.async_status`: each attempt has a connection of its own.
  unfoldable pub legacy_async_status : Address → ℕ → Task Op Answer (LegacyStatusResponse Latency)
  legacy_async_status server tries = async_retry is_exception tries (
      async_with_tcp net server.host server.port (λ socket. do
        latency ← out.clock
        legacy_read_status (async_tcp_connection net socket) out.decimal latency))

  -- `BedrockClient._read_status_async`: the stream, once there, is closed after every outcome.
  unfoldable pub async_receive_status : Address → Task Op Answer Bytes
  async_receive_status server = do
    stream ← net.connect_dgram server.host server.port
    ensure (do net.send stream request_status_data; net.recv stream) (net.close_dgram stream)

  -- `BedrockClient.read_status_async`
  unfoldable pub read_status_async : Address → Task Op Answer (BedrockStatusResponse Latency)
  unfolding async_receive_status
  read_status_async server = do
    answer ← async_receive_status server
    latency ← out.clock
    lift (parse_bedrock out.decimal answer latency)

  -- `BedrockServer.async_status`
  unfoldable pub bedrock_async_status : Address → ℕ → Task Op Answer (BedrockStatusResponse Latency)
  unfolding read_status_async
  bedrock_async_status server tries = async_retry is_exception tries (read_status_async server)

module _ {Op : Type 0} {Answer : Op → Type 0} (dns : AsyncResolver Op Answer)
    (lib : Libraries) where
  -- `BaseJavaServer.async_lookup`, of a legacy server
  unfoldable pub async_lookup_legacy : Str → Task Op Answer Address
  async_lookup_legacy string = do
    addr ← async_minecraft_srv_address_lookup dns lib (some (pos java_default_port)) string
    lift (init_server java_default_port addr.host (some (pos addr.port)))

  -- `BaseJavaServer.async_lookup`, of a Java server
  unfoldable pub async_lookup_java : Str → Task Op Answer JavaServer
  async_lookup_java string = do
    addr ← async_minecraft_srv_address_lookup dns lib (some (pos java_default_port)) string
    lift (init_java addr.host (some (pos addr.port)) none)
