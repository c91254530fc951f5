-- ===== src/Client/Java/Session.antt =====
-- mcstatus/_protocol/java_client.py: a request over a connection behind which a server answers.
use mcstatus_rust.Prelude.{
  ℕ, ◌≡◌, refl, ap, sym, ◌∙◌, Option, [], ◌∷◌, ◌++◌, append-nil, not, arith, if◌then◌else◌,
}
use mcstatus_rust.Prelude.Int.{ℤ, pos}
use mcstatus_rust.Prelude.Exec.{
  Simulates-bind, Simulates-if, Simulates-catch, Simulates-raise, Simulates-lift, catch, Exec,
  Result, ok, err, os_error, Simulates, sim_rules, ◌>>=◌, ◌>>◌,
}
use mcstatus_rust.Io.Text.{Str, Bytes}
use mcstatus_rust.Io.Struct.{longlong, pack, is_signed, standard_size, to_be}
use mcstatus_rust.Io.Twos.{to_twos_complement}
use mcstatus_rust.Io.Writer.{
  write_bytearray, write_varint, write_varuint, varuint_loop, write_value, write_utf,
}
use mcstatus_rust.Io.Writer.Encode.{sink, write_sink}
use mcstatus_rust.Io.Writer.Refine.{IsWriter, sim-write_varint, sim-write_value}
use mcstatus_rust.Io.Reader.Stream.{stream}
use mcstatus_rust.Io.Reader.Refine.{sim-read_varint, sim-read_value, sim-read_utf}
use mcstatus_rust.Io.Reader.RoundTrip.{varint-Carries}
use mcstatus_rust.Io.Reader.Compose.{IsWireText, text-Carries}
use mcstatus_rust.Io.Buffer.{Buffer, init, unread_view, write, buffer_reader, buffer_writer}
use mcstatus_rust.Io.Buffer.Laws.{IsValid, buffer-IsReader}
use mcstatus_rust.Response.Status.{RawJavaResponse, build_status}
use mcstatus_rust.Client.Java.{
  is_one, is_zero, as_os_error, Connection, sent, status_packet, ping_packet, packet_bytes,
  handle_ping_response, handle_status_response, replace_key_error, same_token, test_ping,
  read_status,
}
use mcstatus_rust.Client.Java.Laws.{ping_packet-handled}
use mcstatus_rust.Client.Java.Duplex.{IsDuplex, IsFrame, Answered, exchange}

-- Writing to a new buffer adds to its content and leaves its position at the start.
fresh-IsWriter : IsWriter (λ b. b.pos ≡ 0) (λ b. b.content) buffer_writer
fresh-IsWriter = record {
  writes = λ raw. record {
    at = λ b h. unfold write write_sink in refl;
    keeps = λ b h. unfold write in h;
  };
}

sent_bytes :
    (p : Result (Unit {0}) × Buffer) (raw : Bytes)
    → p.0 ≡ ok tt
    → p.1.content ≡ raw
    → p.1.pos ≡ 0
    → sent p ≡ ok raw
unfolding unread_view
sent_bytes (ok u, b) raw e f g = rw g (ap ok f)
sent_bytes (err x, b) raw e f g = absurd cc

packet_bytes-sink :
    (m : Exec Buffer (Unit {0})) (m' : Exec Bytes (Unit {0})) (raw : Bytes)
    → Simulates (λ b. b.pos ≡ 0) (λ b. b.content) m m'
    → m' [] ≡ (ok tt, raw)
    → packet_bytes m ≡ ok raw
unfolding packet_bytes init
packet_bytes-sink m m' raw h e =
    let run = sym (h.at (init []) refl) ∙ e in
    sent_bytes (m (init [])) raw (ap (λ p. p.0) run) (ap (λ p. p.1) run) (h.keeps (init []) refl)

-- A handler gives on a new buffer what it gives on the stream of its bytes.
handled :
    {A : Type 0} (m : Exec Buffer A) (m' : Exec Bytes A) (raw rest : Bytes) (r : Result A)
    → Simulates IsValid unread_view m m'
    → m' raw ≡ (r, rest)
    → (m (init raw)).0 ≡ r
unfolding init unread_view
handled m m' raw rest r h e = ap (λ p. p.0) (sym (h.at (init raw) (omega arith)) ∙ e)

sim-ping_packet :
    (token : ℤ)
    → Simulates
        (λ b. b.pos ≡ 0)
        (λ b. b.content)
        (ping_packet buffer_writer token)
        (ping_packet sink token)
unfolding ping_packet
sim-ping_packet token =
    search (sim_rules, sim-write_varint fresh-IsWriter, sim-write_value fresh-IsWriter)

sim-status_packet :
    Simulates (λ b. b.pos ≡ 0) (λ b. b.content) (status_packet buffer_writer) (status_packet sink)
unfolding status_packet
sim-status_packet = sim-write_varint fresh-IsWriter (pos 0)

sim-handle_ping_response :
    {Latency : Type 0} (token : ℤ) (latency : Latency)
    → Simulates IsValid unread_view
        (handle_ping_response buffer_reader token latency)
        (handle_ping_response stream token latency)
unfolding handle_ping_response
sim-handle_ping_response token latency =
    Simulates-bind _ _ _ _ (sim-read_varint buffer-IsReader) (λ id.
      Simulates-if (not (is_one id)) _ _ _ _ (Simulates-raise os_error) (
        Simulates-bind _ _ _ _ (sim-read_value buffer-IsReader longlong)
          (λ received. search sim_rules)))

module _ {Latency : Type 0} (decimal : ℕ → Option ℕ) (loads : Str → Result RawJavaResponse)
    (latency : Latency) where
  sim-handle_status_response :
      Simulates IsValid unread_view
        (handle_status_response buffer_reader decimal loads latency)
        (handle_status_response stream decimal loads latency)
  unfolding handle_status_response
  sim-handle_status_response = Simulates-bind _ _ _ _ (sim-read_varint buffer-IsReader) (λ id.
      Simulates-if (not (is_zero id)) _ _ _ _ (Simulates-raise os_error) (
        Simulates-bind _ _ _ _
          (Simulates-catch _ _ _ _
            (Simulates-bind _ _ _ _ (sim-read_utf buffer-IsReader) (λ s. Simulates-lift (loads s)))
            (λ e. Simulates-raise (as_os_error e)))
          (λ raw. Simulates-lift _)))

-- The packet that a server answers a status request with.
abbrev pub status_answer : Str → Exec Bytes (Unit {0})
status_answer text = do write_varint sink (pos 0); write_utf sink text

module _ {Latency : Type 0} (decimal : ℕ → Option ℕ) (loads : Str → Result RawJavaResponse)
    (latency : Latency) where
  status_answer-handled :
      (text : Str) {raw : RawJavaResponse} (wire : Bytes)
      → IsWireText text
      → loads text ≡ ok raw
      → status_answer text [] ≡ (ok tt, wire)
      → handle_status_response stream decimal loads latency wire
        ≡ (replace_key_error (build_status decimal raw latency), [])
  unfolding handle_status_response ◌>>=◌ catch
  status_answer-handled text {raw} wire h e w =
      let i = varint-Carries (pos 0) (omega arith) in
      let t = text-Carries text h in
      let run : status_answer text [] ≡ (ok tt, i.wire ++ t.wire) =
        rw (i.writes [], t.writes i.wire) refl in
      let same : i.wire ++ t.wire ≡ wire = ap (λ p. p.1) (sym run ∙ w) in
      ap (handle_status_response stream decimal loads latency)
        (sym same ∙ ap (λ x. i.wire ++ x) (sym (append-nil t.wire)))
      ∙ rw (i.reads (t.wire ++ []), t.reads [], e) refl

request-IsFrame : IsFrame (status_packet sink) (1 ∷ 0 ∷ [])
unfolding status_packet write_bytearray write_varint write_varuint varuint_loop write_value ◌>>=◌
    write_sink to_twos_complement pack is_signed standard_size to_be
request-IsFrame = record { payload = 0 ∷ []; writes = refl; small = omega arith; frames = refl }

module _ {S Latency : Type 0} {unread sent : S → Bytes} {connection : Connection S}
    (duplex : IsDuplex unread sent connection) (latency : Latency) where
  -- Over a connection on which an answer of the server to a status request is to come, `read_status`
  -- sends the request, takes exactly the answer, and gives what is built of the JSON in it, a missing
  -- key being an `OSError`; for a text that a string of the wire format can hold and that is JSON.
  pub read_status-Answered :
      (decimal : ℕ → Option ℕ) (loads : Str → Result RawJavaResponse) (s : S) (text : Str)
      {raw : RawJavaResponse} {frame rest : Bytes}
      → IsWireText text
      → loads text ≡ ok raw
      → IsFrame (status_answer text) frame
      → unread s ≡ frame ++ rest
      → Answered duplex
          (read_status connection latency decimal loads)
          s
          (replace_key_error (build_status decimal raw latency))
          rest
          (1 ∷ 0 ∷ [])
  unfolding read_status packet_bytes ◌>>=◌
  read_status-Answered decimal loads s text {rest} h e frame f =
      exchange duplex request-IsFrame frame s rest (packet_bytes (status_packet buffer_writer)) _ _
        (packet_bytes-sink _ _ _ sim-status_packet request-IsFrame.writes) f
        (λ t.
          ap (λ r. (r, t))
            (handled _ _ frame.payload [] _ (sim-handle_status_response decimal loads latency)
              (status_answer-handled decimal loads latency text frame.payload h e frame.writes)))

  -- A ping over a connection on which a pong of the server is to come sends its token, takes exactly
  -- the pong, and gives the latency if the pong has the same token, and an `OSError` if it has another
  -- one.
  pub test_ping-Answered :
      (s : S) (token received : ℤ) {raw out frame rest : Bytes}
      → pack longlong received ≡ ok raw
      → IsFrame (ping_packet sink token) out
      → IsFrame (ping_packet sink received) frame
      → unread s ≡ frame ++ rest
      → Answered duplex
          (test_ping connection latency token)
          s
          (if same_token received token then ok latency else err os_error)
          rest
          out
  unfolding test_ping packet_bytes ◌>>=◌
  test_ping-Answered s token received {raw} {rest} p request frame f =
      let (wire, written, handles) = ping_packet-handled received token latency raw p in
      exchange duplex request frame s rest (packet_bytes (ping_packet buffer_writer token)) _ _
        (packet_bytes-sink _ _ _ (sim-ping_packet token) request.writes) f
        (λ t.
          ap (λ r. (r, t))
            (handled _ _ frame.payload [] _ (sim-handle_ping_response token latency) (
              ap (handle_ping_response stream token latency)
                (ap (λ p. p.1) (sym frame.writes ∙ written))
              ∙ handles)))
