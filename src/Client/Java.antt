-- ===== src/Client/Java.antt =====
-- mcstatus/_protocol/java_client.py: the client of a Java server. `json.loads` and the clock are
-- parameters.
pub mod Laws
pub mod Duplex
pub mod Session
use mcstatus_rust.Prelude.{ℕ, ◌==◌, Bool, true, false, not, Option, List, [], if◌then◌else◌}
use mcstatus_rust.Prelude.Int.{ℤ, pos, negsuc}
use mcstatus_rust.Prelude.Exec.{
  Exc, Exec, Result, ok, err, os_error, value_error, unicode_error, key_error, pure, raise, lift,
  catch, ◌>>=◌, ◌>>◌,
}
use mcstatus_rust.Io.Text.{Str, Bytes}
use mcstatus_rust.Io.Struct.{ushort, longlong}
use mcstatus_rust.Io.Writer.{Writer, write_value, write_varint, write_utf, write_bytearray}
use mcstatus_rust.Io.Reader.{Reader, read_value, read_varint, read_utf, read_bytearray}
use mcstatus_rust.Io.Buffer.{Buffer, init, flush, unread_view, buffer_reader, buffer_writer}
use mcstatus_rust.Net.{Address}
use mcstatus_rust.Response.Status.{RawJavaResponse, JavaStatusResponse, build_status}

-- A packet that writes its fields with `w`.
module _ {S : Type 0} (w : Writer S) where
  -- `_build_handshake_packet`
  unfoldable pub build_handshake_packet : ℤ → Address → Exec S (Unit {0})
  build_handshake_packet version address = do
    write_varint w (pos 0)
    write_varint w version
    write_utf w address.host
    write_value w ushort (pos address.port)
    write_varint w (pos 1)

  -- The packet of `read_status`.
  unfoldable pub status_packet : Exec S (Unit {0})
  status_packet = write_varint w (pos 0)

  -- The packet of `test_ping`.
  unfoldable pub ping_packet : ℤ → Exec S (Unit {0})
  ping_packet ping_token = do write_varint w (pos 1); write_value w longlong ping_token

abbrev pub sent : Result (Unit {0}) × Buffer → Result Bytes
sent (ok u, packet) = ok (unread_view packet)
sent (err e, packet) = err e

-- The bytes of a packet that is written to a new buffer.
unfoldable pub packet_bytes : Exec Buffer (Unit {0}) → Result Bytes
packet_bytes packet = sent (packet (init []))

abbrev pub is_zero : ℤ → Bool
is_zero (pos n) = n == 0
is_zero (negsuc n) = false

abbrev pub is_one : ℤ → Bool
is_one (pos n) = n == 1
is_one (negsuc n) = false

unfoldable pub same_token : ℤ → ℤ → Bool
same_token (pos n) (pos m) = n == m
same_token (negsuc n) (negsuc m) = n == m
same_token (pos n) (negsuc m) = false
same_token (negsuc n) (pos m) = false

-- `except ValueError`, and its subclass, and `except KeyError`: an `OSError` in their place.
abbrev pub as_os_error : Exc → Exc
as_os_error value_error = os_error
as_os_error unicode_error = os_error
as_os_error e = e

abbrev pub key_as_os_error : Exc → Exc
key_as_os_error key_error = os_error
key_as_os_error e = e

abbrev pub replace_key_error : {A : Type 0} → Result A → Result A
replace_key_error (ok a) = ok a
replace_key_error (err e) = err (key_as_os_error e)

-- `_handle_ping_response`, with what the clock gives.
module _ {S Latency : Type 0} (r : Reader S) where
  unfoldable pub handle_ping_response : ℤ → Latency → Exec S Latency
  unfolding same_token
  handle_ping_response ping_token latency = do
    id ← read_varint r
    if not (is_one id) then raise os_error else do
      received_token ← read_value r longlong
      if same_token received_token ping_token then pure latency else raise os_error

module _ {S Latency : Type 0} (r : Reader S) (decimal : ℕ → Option ℕ)
    (loads : Str → Result RawJavaResponse) where
  -- `_handle_status_response`
  unfoldable pub handle_status_response : Latency → Exec S (JavaStatusResponse Latency)
  handle_status_response latency = do
    id ← read_varint r
    if not (is_zero id) then raise os_error else do
      raw ← catch (do s ← read_utf r; lift (loads s)) (λ e. raise (as_os_error e))
      lift (replace_key_error (build_status decimal raw latency))

-- A connection over some state.
pub record Connection (S : Type 0) : Type 0 where
  pub reader : Reader S
  pub writer : Writer S

module _ {S Latency : Type 0} (connection : Connection S) (latency : Latency) where
  -- `handshake`
  unfoldable pub handshake : ℤ → Address → Exec S (Unit {0})
  unfolding packet_bytes build_handshake_packet
  handshake version address = do
    packet ← lift (packet_bytes (build_handshake_packet buffer_writer version address))
    write_bytearray connection.writer packet

  -- `test_ping`
  unfoldable pub test_ping : ℤ → Exec S Latency
  unfolding packet_bytes ping_packet handle_ping_response
  test_ping ping_token = do
    request ← lift (packet_bytes (ping_packet buffer_writer ping_token))
    write_bytearray connection.writer request
    response ← read_bytearray connection.reader
    lift (handle_ping_response buffer_reader ping_token latency (init response)).0

  -- `read_status`
  unfoldable pub read_status :
      (ℕ → Option ℕ) → (Str → Result RawJavaResponse) → Exec S (JavaStatusResponse Latency)
  unfolding packet_bytes status_packet handle_status_response
  read_status decimal loads = do
    request ← lift (packet_bytes (status_packet buffer_writer))
    write_bytearray connection.writer request
    response ← read_bytearray connection.reader
    lift (handle_status_response buffer_reader decimal loads latency (init response)).0
