-- ===== src/Server/Requests.antt =====
-- mcstatus/server.py: `ping`, `status` and `query`. What comes from outside, the sockets, the clock, the
-- random numbers and `json.loads`, is a parameter.
use mcstatus_rust.Prelude.{ℕ, Option, none, some, Bool, true, false}
use mcstatus_rust.Prelude.Int.{ℤ, pos}
use mcstatus_rust.Prelude.Exec.{Exc, Exec, Result, out_of_rounds, pure, lift, ◌>>=◌, ◌>>◌}
use mcstatus_rust.Io.Text.{Str}
use mcstatus_rust.Io.Connection.Socket.{
  Sockets, tcp_socket_reader, tcp_write, udp_socket_reader, udp_write, with_tcp, with_udp,
}
use mcstatus_rust.Utils.{retry}
use mcstatus_rust.Net.{Address, address}
use mcstatus_rust.Client.Java
use mcstatus_rust.Client.Java.{Connection}
use mcstatus_rust.Client.Query
use mcstatus_rust.Client.Legacy
use mcstatus_rust.Client.Bedrock
use mcstatus_rust.Response.Status.{RawJavaResponse, JavaStatusResponse}
use mcstatus_rust.Response.Query.{QueryResponse}
use mcstatus_rust.Response.Legacy.{LegacyStatusResponse}
use mcstatus_rust.Response.Bedrock.{BedrockStatusResponse}

-- `except Exception`, the default of `retry`; the rounds of the model are no exception of Python.
abbrev pub is_exception : Exc → Bool
is_exception out_of_rounds = false
is_exception e = true

-- `random.randint`, for a token and for a session id, the time between two looks at the clock, in
-- milliseconds, and the JSON and decimal digits of Python.
pub record Outside (S Latency : Type 0) : Type 0 where
  pub random_token : Exec S ℤ
  pub random_session_id : Exec S ℕ
  pub clock : Exec S Latency
  pub loads : Str → Result RawJavaResponse
  pub decimal : ℕ → Option ℕ

module _ {S Socket : Type 0} (net : Sockets S Socket) where
  abbrev pub tcp_connection : Socket → Connection S
  tcp_connection socket = record {
    reader = tcp_socket_reader net socket;
    writer = record { write = tcp_write net socket };
  }

  abbrev pub udp_connection : ℕ → Str → ℕ → Socket → Connection S
  udp_connection rounds host port socket = record {
    reader = udp_socket_reader net socket rounds;
    writer = record { write = udp_write net socket host port };
  }

module _ {S Latency : Type 0} (out : Outside S Latency) where
  -- `JavaClient.__post_init__`
  abbrev pub token_or_random : Option ℤ → Exec S ℤ
  token_or_random none = out.random_token
  token_or_random (some ping_token) = pure ping_token

  -- One attempt of `_retry_ping`.
  unfoldable pub try_ping : Connection S → Address → ℤ → Option ℤ → Exec S Latency
  try_ping connection server version ping_token = do
    token ← token_or_random ping_token
    Java.handshake connection tt version server
    latency ← out.clock
    Java.test_ping connection latency token

  -- One attempt of `_retry_status`.
  unfoldable pub try_status :
      Connection S → Address → ℤ → Option ℤ → Exec S (JavaStatusResponse Latency)
  try_status connection server version ping_token = do
    token ← token_or_random ping_token
    Java.handshake connection tt version server
    latency ← out.clock
    Java.read_status connection latency out.decimal out.loads

  -- One attempt of `_retry_query`, behind its connection.
  unfoldable pub try_query : Connection S → Exec S QueryResponse
  try_query connection = do
    id ← out.random_session_id
    challenge ← Query.handshake connection id out.decimal
    id' ← out.random_session_id
    Query.read_query connection id' out.decimal challenge

module _ {S Socket Latency : Type 0} (net : Sockets S Socket) (out : Outside S Latency) where
  -- `JavaServer.ping`: the attempts share one connection.
  unfoldable pub ping : Address → ℕ → ℤ → Option ℤ → Exec S Latency
  unfolding try_ping
  ping server tries version ping_token = with_tcp net server.host server.port (λ socket.
      retry is_exception tries (try_ping out (tcp_connection net socket) server version ping_token))

  -- `JavaServer.status`
  unfoldable pub status : Address → ℕ → ℤ → Option ℤ → Exec S (JavaStatusResponse Latency)
  unfolding try_status
  status server tries version ping_token = with_tcp net server.host server.port (λ socket.
      retry is_exception tries
        (try_status out (tcp_connection net socket) server version ping_token))

  -- `_retry_query`: each attempt has a connection of its own.
  unfoldable pub retry_query : ℕ → Address → ℕ → Exec S QueryResponse
  unfolding try_query
  retry_query rounds server tries = retry is_exception tries (
      with_udp net server.host
        (λ socket. try_query out (udp_connection net rounds server.host server.port socket)))

  -- `JavaServer.query`, over `str(self.address.resolve_ip())`.
  unfoldable pub query : ℕ → Exec S Str → ℕ → ℕ → Exec S QueryResponse
  unfolding retry_query
  query rounds resolve_ip query_port tries = do
    ip ← resolve_ip
    addr ← lift (address ip (pos query_port))
    retry_query rounds addr tries

  -- `LegacyServer.status`: each attempt has a connection of its own.
  unfoldable pub legacy_status : Address → ℕ → Exec S (LegacyStatusResponse Latency)
  legacy_status server tries = retry is_exception tries (
      with_tcp net server.host server.port (λ socket. do
        latency ← out.clock
        Legacy.read_status out.decimal (tcp_connection net socket) latency))

  -- `BedrockServer.status`
  unfoldable pub bedrock_status : Address → ℕ → Exec S (BedrockStatusResponse Latency)
  bedrock_status server tries =
      retry is_exception tries (Bedrock.read_status net server out.decimal out.clock)
