-- ===== src/Command/Wiring.antt =====
-- mcstatus/__main__.py: the requests of mcstatus/server.py, with the arguments that the commands leave out.
use mcstatus_rust.Prelude.{ℕ, none}
use mcstatus_rust.Prelude.Int.{pos}
use mcstatus_rust.Prelude.Exec.{Exec, pure, ◌>>=◌}
use mcstatus_rust.Io.Text.{Str}
use mcstatus_rust.Io.Connection.Socket.{Sockets}
use mcstatus_rust.Net.{Address}
use mcstatus_rust.Server.Requests
use mcstatus_rust.Server.Requests.{Outside}
use mcstatus_rust.Command.Output.{
  SupportedServer, java, legacy, bedrock, Status, java_status, legacy_status, bedrock_status,
}
use mcstatus_rust.Command.Output as Output

-- The last two arguments: how many empty datagrams are looked at, and `str(address.resolve_ip())`.
module _ {S Socket Latency : Type 0} (net : Sockets S Socket) (out : Outside S Latency) (rounds : ℕ)
    (resolve_ip : Address → Exec S Str) where
  unfoldable pub status_of : SupportedServer → ℕ → Exec S (Status Latency)
  status_of (java server) tries = do
    response ← Requests.status net out server.address tries (pos 47) none
    pure (java_status response)
  status_of (legacy server) tries = do
    response ← Requests.legacy_status net out server tries
    pure (legacy_status response)
  status_of (bedrock server) tries = do
    response ← Requests.bedrock_status net out server tries
    pure (bedrock_status response)

  abbrev pub server_requests : Output.Requests S Latency
  server_requests = record {
    ping = λ server tries. Requests.ping net out server.address tries (pos 47) none;
    status = status_of;
    query = λ server tries.
        Requests.query net out rounds (resolve_ip server.address) server.query_port tries;
  }
