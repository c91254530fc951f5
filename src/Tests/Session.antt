-- ===== src/Tests/Session.antt =====
-- Requests to a Java server that answers, at concrete inputs.
use mcstatus_rust.Prelude.{ℕ, ◌≡◌, refl, none, some, [], ◌∷◌, ◌++◌, arith, if◌then◌else◌}
use mcstatus_rust.Prelude.Int.{pos}
use mcstatus_rust.Prelude.Exec.{ok, err, os_error, ◌>>=◌}
use mcstatus_rust.Io.Text.{Str, Bytes, utf8_encode, utf8_char}
use mcstatus_rust.Io.Struct.{pack, is_signed, standard_size, to_be, longlong}
use mcstatus_rust.Io.Twos.{to_twos_complement}
use mcstatus_rust.Io.Writer.{
  write_bytearray, write_varint, write_varuint, varuint_loop, write_value, write_utf,
}
use mcstatus_rust.Io.Writer.Encode.{sink, write_sink}
use mcstatus_rust.Io.Reader.Stream.{read_stream}
use mcstatus_rust.Io.Reader.Compose.{IsWireText}
use mcstatus_rust.Response.Status.{RawJavaResponse, build_status}
use mcstatus_rust.Client.Java.{
  Connection, replace_key_error, ping_packet, test_ping, read_status, same_token,
}
use mcstatus_rust.Client.Java.Duplex.{IsDuplex, IsFrame, Answered}
use mcstatus_rust.Client.Java.Session.{status_answer, read_status-Answered, test_ping-Answered}

-- What is still to come, and what has been sent.
abbrev Pipe : Type 0
Pipe = Bytes × Bytes

abbrev pipe : Connection Pipe
pipe = record {
  reader = record { read = λ n s. ((read_stream n s.0).0, ((read_stream n s.0).1, s.1)) };
  writer = record { write = λ raw s. (ok tt, (s.0, s.1 ++ raw)) };
}

pipe-IsDuplex : IsDuplex (λ (s : Pipe). s.0) (λ (s : Pipe). s.1) pipe
pipe-IsDuplex = record {
  reads = λ out. record { reads = λ n. record { at = λ s h. refl; keeps = λ s h. h } };
  writes = λ incoming. record {
    writes = λ raw. record { at = λ s h. unfold write_sink in refl; keeps = λ s h. h };
  };
}

abbrev text : Str
text = b'7' ∷ []

text_encodes : utf8_encode text ≡ ok text
unfolding utf8_encode utf8_char
text_encodes = refl

text-IsWireText : IsWireText text
text-IsWireText = record {
  code_points = (omega arith, tt);
  encoded = text;
  encodes = text_encodes;
  short_enough = omega arith;
}

-- One player of twenty, and no text.
abbrev lively : RawJavaResponse
lively = record {
  players = some (record { online = some (pos 1); max = some (pos 20); sample = none });
  version = some (record { name = some text; protocol = some (pos 47) });
  description = none;
  enforces_secure_chat = none;
  favicon = none;
  forge_data = none;
  modinfo = none;
}

status-IsFrame : IsFrame (status_answer text) (3 ∷ 0 ∷ 1 ∷ b'7' ∷ [])
unfolding write_bytearray write_varint write_varuint varuint_loop write_value write_utf ◌>>=◌
    write_sink to_twos_complement pack is_signed standard_size to_be utf8_encode utf8_char
status-IsFrame = record {
  payload = 0 ∷ 1 ∷ b'7' ∷ [];
  writes = refl;
  small = omega arith;
  frames = refl;
}

ping-IsFrame : IsFrame (ping_packet sink (pos 5)) (9 ∷ 1 ∷ 0 ∷ 0 ∷ 0 ∷ 0 ∷ 0 ∷ 0 ∷ 0 ∷ 5 ∷ [])
unfolding ping_packet write_bytearray write_varint write_varuint varuint_loop write_value ◌>>=◌
    write_sink to_twos_complement pack is_signed standard_size to_be
ping-IsFrame = record {
  payload = 1 ∷ 0 ∷ 0 ∷ 0 ∷ 0 ∷ 0 ∷ 0 ∷ 0 ∷ 5 ∷ [];
  writes = refl;
  small = omega arith;
  frames = refl;
}

packed : pack longlong (pos 5) ≡ ok (0 ∷ 0 ∷ 0 ∷ 0 ∷ 0 ∷ 0 ∷ 0 ∷ 5 ∷ [])
unfolding pack is_signed standard_size to_be to_twos_complement
packed = refl

abbrev elapsed : ℕ
elapsed = 42

read_status-Answered_example :
    Answered pipe-IsDuplex
      (read_status pipe elapsed (λ c. none) (λ s. ok lively))
      (3 ∷ 0 ∷ 1 ∷ b'7' ∷ 8 ∷ [], [])
      (replace_key_error (build_status (λ c. none) lively elapsed))
      (8 ∷ [])
      (1 ∷ 0 ∷ [])
read_status-Answered_example =
    read_status-Answered pipe-IsDuplex elapsed (λ c. none) (λ s. ok lively)
      (3 ∷ 0 ∷ 1 ∷ b'7' ∷ 8 ∷ [], []) text text-IsWireText refl status-IsFrame refl

test_ping-Answered_example :
    Answered pipe-IsDuplex
      (test_ping pipe elapsed (pos 5))
      (9 ∷ 1 ∷ 0 ∷ 0 ∷ 0 ∷ 0 ∷ 0 ∷ 0 ∷ 0 ∷ 5 ∷ 8 ∷ [], [])
      (if same_token (pos 5) (pos 5) then ok elapsed else err os_error)
      (8 ∷ [])
      (9 ∷ 1 ∷ 0 ∷ 0 ∷ 0 ∷ 0 ∷ 0 ∷ 0 ∷ 0 ∷ 5 ∷ [])
test_ping-Answered_example =
    test_ping-Answered pipe-IsDuplex elapsed (9 ∷ 1 ∷ 0 ∷ 0 ∷ 0 ∷ 0 ∷ 0 ∷ 0 ∷ 0 ∷ 5 ∷ 8 ∷ [], [])
      (pos 5) (pos 5) packed ping-IsFrame ping-IsFrame refl
