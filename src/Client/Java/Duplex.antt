-- ===== src/Client/Java/Duplex.antt =====
-- mcstatus/_protocol/java_client.py: a connection with two directions, and the frames that cross it.
use mcstatus_rust.Prelude.{◌<◌, ◌^◌, ◌≡◌, refl, ap, sym, ◌∙◌, [], ◌++◌, length, append-nil}
use mcstatus_rust.Prelude.Exec.{Exec, Result, ok, lift, bind_ok, lift_ok, ◌>>=◌, ◌>>◌}
use mcstatus_rust.Io.Text.{Bytes}
use mcstatus_rust.Io.Writer.{write_bytearray}
use mcstatus_rust.Io.Writer.Encode.{sink}
use mcstatus_rust.Io.Writer.Refine.{IsWriter, sim-write_bytearray}
use mcstatus_rust.Io.Reader.{read_bytearray}
use mcstatus_rust.Io.Reader.Stream.{stream}
use mcstatus_rust.Io.Reader.Refine.{IsReader, sim-read_bytearray}
use mcstatus_rust.Io.Reader.RoundTrip.{bytearray-Carries}
use mcstatus_rust.Client.Java.{Connection}

-- A connection that reads from the bytes that `unread` shows and adds to those that `sent` shows; neither
-- direction changes the other one.
pub record IsDuplex {S : Type 0} (unread sent : S → Bytes) (connection : Connection S)
    : Type 0 where
  pub reads : (out : Bytes) → IsReader (λ s. sent s ≡ out) unread connection.reader
  pub writes : (incoming : Bytes) → IsWriter (λ s. unread s ≡ incoming) sent connection.writer

-- `frame` is the packet that `m` writes, behind its length.
pub record IsFrame (m : Exec Bytes (Unit {0})) (frame : Bytes) : Type 0 where
  pub payload : Bytes
  pub writes : m [] ≡ (ok tt, payload)
  pub small : length payload < 2 ^ 31
  pub frames : write_bytearray sink payload [] ≡ (ok tt, frame)

frame_wire :
    {m : Exec Bytes (Unit {0})} {frame : Bytes} (h : IsFrame m frame)
    → (bytearray-Carries h.payload h.small).wire ≡ frame
frame_wire h = ap (λ p. p.1) (sym ((bytearray-Carries h.payload h.small).writes []) ∙ h.frames)

module _ {S : Type 0} {unread sent : S → Bytes} {connection : Connection S}
    (duplex : IsDuplex unread sent connection) where
  -- From `s` on, `m` gives `r`, sends `out`, and leaves `rest` to be read.
  abbrev pub Answered : {A : Type 0} → Exec S A → S → Result A → Bytes → Bytes → Type 0
  Answered m s r rest out = (t : S) × (m s ≡ (r, t)) × (unread t ≡ rest) × (sent t ≡ sent s ++ out)

  frame_sent :
      {m : Exec Bytes (Unit {0})} {frame : Bytes} (h : IsFrame m frame) (s : S)
      → Answered (write_bytearray connection.writer h.payload) s (ok tt) (unread s) frame
  frame_sent h s =
      let sim = sim-write_bytearray (duplex.writes (unread s)) h.payload in
      let run = sym (sim.at s refl) ∙ (bytearray-Carries h.payload h.small).writes (sent s) in
      (
        (write_bytearray connection.writer h.payload s).1,
        ap (λ r. (r, (write_bytearray connection.writer h.payload s).1)) (ap (λ p. p.0) run),
        sim.keeps s refl,
        ap (λ p. p.1) run ∙ ap (λ w. sent s ++ w) (frame_wire h),
      )

  frame_received :
      {m : Exec Bytes (Unit {0})} {frame : Bytes} (h : IsFrame m frame) (s : S) (rest : Bytes)
      → unread s ≡ frame ++ rest
      → Answered (read_bytearray connection.reader) s (ok h.payload) rest []
  frame_received h s rest e =
      let sim = sim-read_bytearray (duplex.reads (sent s)) in
      let run =
        sym (sim.at s refl)
        ∙ ap (read_bytearray stream) (e ∙ ap (λ w. w ++ rest) (sym (frame_wire h)))
        ∙ (bytearray-Carries h.payload h.small).reads rest in
      (
        (read_bytearray connection.reader s).1,
        ap (λ r. (r, (read_bytearray connection.reader s).1)) (ap (λ p. p.0) run),
        ap (λ p. p.1) run,
        sim.keeps s refl ∙ sym (append-nil (sent s)),
      )

  -- A request that is written to a buffer and sent behind its length, and its answer.
  pub exchange :
      {A : Type 0} {m n : Exec Bytes (Unit {0})} {out frame : Bytes} (h : IsFrame m out)
      (k : IsFrame n frame) (s : S) (rest : Bytes) (request : Result Bytes)
      (handle : Bytes → Exec S A) (r : Result A)
      → request ≡ ok h.payload
      → unread s ≡ frame ++ rest
      → ((t : S) → handle k.payload t ≡ (r, t))
      → Answered
          (do
            raw ← lift request
            write_bytearray connection.writer raw
            response ← read_bytearray connection.reader
            handle response)
          s
          r
          rest
          out
  exchange h k s rest request handle r e f g =
      let (t, run, left, gone) = frame_sent h s in
      let (u, run', left', gone') = frame_received k t rest (left ∙ f) in
      (
        u,
        bind_ok (lift request) _ s (lift_ok request s e)
            ∙ bind_ok (write_bytearray connection.writer h.payload) _ s run
            ∙ bind_ok (read_bytearray connection.reader) handle t run'
            ∙ g u,
        left',
        gone' ∙ append-nil (sent t) ∙ gone,
      )
