-- ===== src/Async/Client.antt =====
-- mcstatus/_protocol/*_client.py: the asynchronous clients, in tasks. What reads no connection, the
-- packets and the handling of the answers, they share with the synchronous clients.
pub mod Runs
use mcstatus_rust.Prelude.{ℕ, ◌*◌, not, Option, List, [], ◌∷◌, ◌=s=◌, if◌then◌else◌}
use mcstatus_rust.Prelude.Int.{ℤ, pos, pos_part}
use mcstatus_rust.Prelude.Exec
use mcstatus_rust.Prelude.Exec.{Result, os_error}
use mcstatus_rust.Io.Text.{Str}
use mcstatus_rust.Io.Struct.{ushort}
use mcstatus_rust.Io.Buffer.{init, buffer_reader, buffer_writer}
use mcstatus_rust.Async.Task.{Task, raise, lift, ◌>>=◌, ◌>>◌}
use mcstatus_rust.Async.Writer.{AsyncWriter, write_bytearray}
use mcstatus_rust.Async.Reader.{AsyncReader, read_value, read_bytearray}
use mcstatus_rust.Net.{Address}
use mcstatus_rust.Client.Java.{
  packet_bytes, build_handshake_packet, status_packet, ping_packet, handle_ping_response,
  handle_status_response,
}
use mcstatus_rust.Client.Query.{
  create_packet, create_handshake_packet, read_challenge, parse_answer,
}
use mcstatus_rust.Client.Legacy.{request_status_data, parse_response}
use mcstatus_rust.Response.Status.{RawJavaResponse, JavaStatusResponse}
use mcstatus_rust.Response.Query.{QueryResponse, build_query}
use mcstatus_rust.Response.Legacy.{LegacyStatusResponse}

pub record AsyncConnection (Op : Type 0) (Answer : Op → Type 0) : Type 0 where
  pub reader : AsyncReader Op Answer
  pub writer : AsyncWriter Op Answer

module _ {Op : Type 0} {Answer : Op → Type 0} (connection : AsyncConnection Op Answer) where
  -- `AsyncJavaClient.handshake`
  unfoldable pub java_handshake : ℤ → Address → Task Op Answer (Unit {0})
  java_handshake version address = do
    packet ← lift (packet_bytes (build_handshake_packet buffer_writer version address))
    write_bytearray connection.writer packet

  -- `AsyncJavaClient.test_ping`
  unfoldable pub test_ping : {Latency : Type 0} → Latency → ℤ → Task Op Answer Latency
  test_ping latency ping_token = do
    request ← lift (packet_bytes (ping_packet buffer_writer ping_token))
    write_bytearray connection.writer request
    response ← read_bytearray connection.reader
    lift (handle_ping_response buffer_reader ping_token latency (init response)).0

  -- `AsyncJavaClient.read_status`
  unfoldable pub java_read_status :
      {Latency : Type 0}
      → Latency
      → (ℕ → Option ℕ)
      → (Str → Result RawJavaResponse)
      → Task Op Answer (JavaStatusResponse Latency)
  java_read_status latency decimal loads = do
    request ← lift (packet_bytes (status_packet buffer_writer))
    write_bytearray connection.writer request
    response ← read_bytearray connection.reader
    lift (handle_status_response buffer_reader decimal loads latency (init response)).0

  -- `AsyncQueryClient.handshake`; the result is the new `challenge`.
  unfoldable pub query_handshake : ℕ → (ℕ → Option ℕ) → Task Op Answer ℤ
  query_handshake session_id decimal = do
    packet ← lift (packet_bytes (create_handshake_packet buffer_writer session_id))
    connection.writer.write packet
    answer ← connection.reader.read 65535
    lift (read_challenge decimal (init answer)).0

  -- `AsyncQueryClient.read_query`
  unfoldable pub read_query : ℕ → (ℕ → Option ℕ) → ℤ → Task Op Answer QueryResponse
  read_query session_id decimal challenge = do
    request ← lift (packet_bytes (create_packet buffer_writer session_id challenge))
    connection.writer.write request
    answer ← connection.reader.read 65535
    raw ← lift (parse_answer (init answer)).0
    lift (build_query decimal raw.0 raw.1)

  -- `AsyncLegacyClient.read_status`
  unfoldable pub legacy_read_status :
      {Latency : Type 0} → (ℕ → Option ℕ) → Latency → Task Op Answer (LegacyStatusResponse Latency)
  legacy_read_status decimal latency = do
    connection.writer.write request_status_data
    id ← connection.reader.read 1
    if not (id =s= 0xFF ∷ []) then raise os_error else do
      n ← read_value connection.reader ushort
      answer ← connection.reader.read (pos_part n * 2)
      lift (parse_response decimal answer latency)
