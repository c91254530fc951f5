-- ===== src/Client/Java/Laws.antt =====
-- mcstatus/_protocol/java_client.py: what the packets carry, and what is made of the answers.
use mcstatus_rust.Prelude.{
  ◌≡◌, refl, ap, ◌∙◌, sym, Bool, true, false, [], ◌++◌, if◌then◌else◌, append-nil, arith,
}
use mcstatus_rust.Prelude.Int.{ℤ, pos, negsuc}
use mcstatus_rust.Prelude.Exec.{Exec, ok, err, os_error, pure, raise, ◌>>=◌}
use mcstatus_rust.Io.Text.{Bytes, Str}
use mcstatus_rust.Io.Struct.{longlong, ushort, pack, calcsize, standard_size}
use mcstatus_rust.Io.Writer.{write_varint}
use mcstatus_rust.Io.Writer.Encode.{sink}
use mcstatus_rust.Io.Reader.{read_varint, read_utf, read_value}
use mcstatus_rust.Io.Reader.Compose.{bind-Carries, map-Carries, IsWireText, text-Carries}
use mcstatus_rust.Io.Twos.RoundTrip.{InRange}
use mcstatus_rust.Net.{Address}
use mcstatus_rust.Io.Reader.Stream.{stream}
use mcstatus_rust.Io.Reader.RoundTrip.{Carries, varint-Carries, value-Carries}
use mcstatus_rust.Client.Java.{
  build_handshake_packet, ping_packet, handle_ping_response, same_token,
}

same_token_refl : (z : ℤ) → same_token z z ≡ true
unfolding same_token
same_token_refl (pos n) = ground arith
same_token_refl (negsuc n) = ground arith

id_one : Carries (write_varint sink (pos 1)) (read_varint stream) (pos 1)
id_one = varint-Carries (pos 1) (omega arith)

longlong_size : calcsize longlong ≡ standard_size longlong
unfolding calcsize standard_size
longlong_size = refl

verdict :
    {Latency : Type 0} (b : Bool) (latency : Latency) (rest : Bytes)
    → (if b then pure latency else raise os_error) rest
      ≡ ((if b then ok latency else err os_error), rest)
unfolding ◌>>=◌
verdict true latency rest = refl
verdict false latency rest = refl

-- The packet of a ping, sent back as it is, is accepted exactly if its token is the expected one; any
-- other token is an `OSError`.
pub ping_packet-handled :
    {Latency : Type 0} (token expected : ℤ) (latency : Latency) (raw : Bytes)
    → pack longlong token ≡ ok raw
    → (wire : Bytes) × (ping_packet sink token [] ≡ (ok tt, wire))
      × (handle_ping_response stream expected latency wire
          ≡ ((if same_token token expected then ok latency else err os_error), []))
unfolding ping_packet handle_ping_response ◌>>=◌
ping_packet-handled token expected latency raw h =
    let t = value-Carries longlong token h longlong_size in
    (
      id_one.wire ++ t.wire,
      rw (id_one.writes [], t.writes id_one.wire) refl,
      ap (λ x. handle_ping_response stream expected latency (id_one.wire ++ x))
            (sym (append-nil t.wire))
          ∙ rw (id_one.reads (t.wire ++ []), t.reads [])
              (verdict (same_token token expected) latency []),
    )

-- What a server reads from a handshake.
abbrev pub read_handshake : Exec Bytes (ℤ × ℤ × Str × ℤ × ℤ)
read_handshake = do
  id ← read_varint stream
  version ← read_varint stream
  host ← read_utf stream
  port ← read_value stream ushort
  intention ← read_varint stream
  pure (id, version, host, port, intention)

ushort_size : calcsize ushort ≡ standard_size ushort
unfolding calcsize standard_size
ushort_size = refl

-- A server reads from the handshake packet the packet id 0, the version, the host, the port and the
-- intention 1, for a 32-bit version, a host that a string of the wire format can hold and a port
-- that `pack` accepts.
pub build_handshake_packet-Carries :
    (version : ℤ) (address : Address) {raw : Bytes}
    → InRange 31 version
    → IsWireText address.host
    → pack ushort (pos address.port) ≡ ok raw
    → Carries
        (build_handshake_packet sink version address)
        read_handshake
        (pos 0, version, address.host, pos address.port, pos 1)
unfolding build_handshake_packet
build_handshake_packet-Carries version address h k l =
    bind-Carries _ _ _ _ (varint-Carries (pos 0) (omega arith)) (
      bind-Carries _ _ _ _ (varint-Carries version h) (
        bind-Carries _ _ _ _ (text-Carries address.host k) (
          bind-Carries _ _ _ _ (value-Carries ushort (pos address.port) l ushort_size)
            (map-Carries _ _ (λ i. (pos 0, version, address.host, pos address.port, i)) id_one))))
