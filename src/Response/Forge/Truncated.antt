-- ===== src/Response/Forge/Truncated.antt =====
-- mcstatus/responses/forge.py: what `ForgeData.build` keeps of data that end too early.
use mcstatus_rust.Prelude.{
  ℕ, ◌≡◌, ap, sym, ◌∙◌, true, Bool, none, List, [], ◌++◌, ◌+◌, ◌-◌, ◌<◌, ◌^◌, map, length, All,
  append_assoc, arith, if◌then◌else◌,
}
use mcstatus_rust.Prelude.Int.{ℤ, pos}
use mcstatus_rust.Prelude.Exec.{ok, err, os_error, bind_ok, bind_err, ◌>>=◌, ◌>>◌}
use mcstatus_rust.Io.Text.{Bytes}
use mcstatus_rust.Io.Reader.Stream.{stream}
use mcstatus_rust.Io.Reader.Refine.{sim-read_varint}
use mcstatus_rust.Io.Buffer.{Buffer, unread_view, buffer_reader}
use mcstatus_rust.Io.Buffer.Laws.{IsValid, buffer-IsReader}
use mcstatus_rust.Response.Forge.Decode.{
  ForgeDataChannel, decode_channel, decode_mod, build_decoded, on_buffer, mods_loop, channels_loop,
  decode_all, after_header,
}
use mcstatus_rust.Response.Forge.Laws.{encode_channels, IsWireChannel}
use mcstatus_rust.Response.Forge.Follows.{follows, locals, on_buffer-eq}
use mcstatus_rust.Response.Forge.Wire.{
  WireMod, IsWireMod, mod_of, all_channels, encode_mods, encode_mods-wires, wires, channel_wires,
  run_mods, stuck_mods, run_channels, stuck_channels,
}
use mcstatus_rust.Io.Writer.{write_varint}
use mcstatus_rust.Io.Writer.Encode.{sink}
use mcstatus_rust.Io.Struct.{ushort, pack}
use mcstatus_rust.Io.Reader.{read_varint}
use mcstatus_rust.Io.Reader.RoundTrip.{varint-Carries}
use mcstatus_rust.Response.Forge.Header.{
  encode_header, header-Carries, Appends-bind, Appends-eq, encode_channels-Appends, behind_header,
  forgiven, completed, mods_done,
}

-- Of Forge data in which some mods, that the wire format can hold, are complete, fewer than the header says,
-- and the decoding of the next one is an `OSError`: if the data are flagged as truncated, exactly the
-- complete mods and their channels are the answer, and nothing of the next one; if they are not, the
-- `OSError` is raised. The buffer is a valid one with the data unread.
pub build_decoded-mods :
    (version : ℤ) (t : Bool) (n : ℕ) {raw : Bytes} (ms : List WireMod) (buffer : Buffer)
    (wire rest left : Bytes)
    → pack ushort (pos n) ≡ ok raw
    → All IsWireMod ms
    → (encode_header t n >> encode_mods ms) [] ≡ (ok tt, wire)
    → IsValid buffer
    → unread_view buffer ≡ wire ++ rest
    → length ms < n
    → decode_mod stream rest ≡ (err os_error, left)
    → build_decoded version buffer ≡ (
        if t
        then ok (record {
          fml_network_version = version;
          channels = all_channels ms;
          mods = map mod_of ms;
          truncated = true;
        })
        else err os_error)
unfolding decode_all
build_decoded-mods version t n ms buffer wire rest left p h e v u lt stuck =
    let header = header-Carries t n p in
    let same : header.wire ++ wires ms h ≡ wire =
      Appends-eq (encode_header t n >> encode_mods ms) _ wire
        (Appends-bind (encode_header t n) (encode_mods ms) header.wire (wires ms h) header.writes
          (encode_mods-wires ms h))
        e in
    let (b1, u1, v1, start) =
      behind_header version t n buffer (wires ms h ++ rest) p v
        (u ∙ ap (λ x. x ++ rest) (sym same) ∙ append_assoc header.wire (wires ms h) rest) in
    let (b2, u2, v2, run) = run_mods ms h n (n - length ms) b1 rest [] [] (omega arith) v1 u1 in
    let (b3, end) =
      stuck_mods (n - length ms) b2 (all_channels ms) (map mod_of ms) left (omega arith) v2
        (ap (decode_mod stream) u2 ∙ stuck) in
    start
    ∙ forgiven version t n b1 b3 (all_channels ms) (map mod_of ms)
        (bind_err (mods_loop n) _ (locals b1 [] []) (run ∙ end))

-- Data of which every mod and some other channels are complete.
module _ (version : ℤ) (t : Bool) {raw : Bytes} (ms : List WireMod) (k : ℕ)
    (cs : List ForgeDataChannel) (buffer : Buffer) (wire rest : Bytes)
    (p : pack ushort (pos (length ms)) ≡ ok raw) (small : k < 2 ^ 31) (h : All IsWireMod ms)
    (hc : All IsWireChannel cs)
    (e : (encode_header t (length ms)
          >> (encode_mods ms >> (write_varint sink (pos k) >> encode_channels cs)))
        []
      ≡ (ok tt, wire))
    (v : IsValid buffer) (u : unread_view buffer ≡ wire ++ rest) where
  -- The run up to the first channel that is not complete.
  up_to_channels :
      (j : ℕ)
      → k ≡ length cs + j
      → (b b' : Buffer) × (unread_view b' ≡ rest)
        × IsValid b'
        × (build_decoded version buffer ≡ after_header version (ok (t, length ms), b))
        × (decode_all (length ms) (locals b [] [])
            ≡ channels_loop j (locals b' (all_channels ms ++ cs) (map mod_of ms)))
  unfolding decode_all
  up_to_channels j split =
      let header = header-Carries t (length ms) p in
      let count = varint-Carries (pos k) small in
      let late = count.wire ++ channel_wires cs hc in
      let same : header.wire ++ (wires ms h ++ late) ≡ wire =
        Appends-eq _ _ wire
          (Appends-bind _ _ header.wire (wires ms h ++ late) header.writes (
            Appends-bind (encode_mods ms) _ (wires ms h) late (encode_mods-wires ms h) (
              Appends-bind _ _ count.wire (channel_wires cs hc) count.writes
                (encode_channels-Appends cs hc))))
          e in
      let (b1, u1, v1, start) =
        behind_header version t (length ms) buffer ((wires ms h ++ late) ++ rest) p v (
          u
          ∙ ap (λ x. x ++ rest) (sym same)
          ∙ append_assoc header.wire (wires ms h ++ late) rest) in
      let (b2, u2, v2, run) =
        run_mods ms h (length ms) 0 b1 (late ++ rest) [] [] (omega arith) v1
          (u1 ∙ append_assoc (wires ms h) late rest) in
      let (b3, read, u3, v3) =
        follows (read_varint buffer_reader) (read_varint stream) b2 _ _
          (sim-read_varint buffer-IsReader) v2
          (ap (read_varint stream) (u2 ∙ append_assoc count.wire (channel_wires cs hc) rest)
            ∙ count.reads (channel_wires cs hc ++ rest)) in
      let (b4, u4, v4, run') =
        run_channels cs hc k j b3 rest (all_channels ms) (map mod_of ms) split v3 u3 in
      (
        b1,
        b4,
        u4,
        v4,
        start,
        bind_ok (mods_loop (length ms)) _ (locals b1 [] [])
              (run ∙ mods_done (locals b2 (all_channels ms) (map mod_of ms)))
            ∙ bind_ok (on_buffer (read_varint buffer_reader)) _
                (locals b2 (all_channels ms) (map mod_of ms))
                (on_buffer-eq (read_varint buffer_reader) _ b2 b3 (all_channels ms) (map mod_of ms)
                  read)
            ∙ run',
      )

  -- Of Forge data in which every mod and some of the other channels, that the wire format can hold, are
  -- complete, fewer channels than their number says, and the decoding of the next one is an `OSError`: if
  -- the data are flagged as truncated, exactly the mods and the complete channels are the answer, those of
  -- the mods first; if they are not, the `OSError` is raised. The buffer is a valid one with the data unread.
  pub build_decoded-channels :
      (left : Bytes)
      → length cs < k
      → decode_channel stream none rest ≡ (err os_error, left)
      → build_decoded version buffer ≡ (
          if t
          then ok (record {
            fml_network_version = version;
            channels = all_channels ms ++ cs;
            mods = map mod_of ms;
            truncated = true;
          })
          else err os_error)
  build_decoded-channels left lt stuck =
      let (b, b', u', v', start, run) = up_to_channels (k - length cs) (omega arith) in
      let (b2, end) =
        stuck_channels (k - length cs) b' (all_channels ms ++ cs) (map mod_of ms) left (omega arith)
          v' (ap (decode_channel stream none) u' ∙ stuck) in
      start
      ∙ forgiven version t (length ms) b b2 (all_channels ms ++ cs) (map mod_of ms) (run ∙ end)

  -- Forge data that a server writes, with a flag, its mods and its other channels, all of which the wire
  -- format can hold, are decoded to these mods, the channels of the mods, the other channels behind them, and
  -- the flag, whatever follows the data in a valid buffer.
  pub build_decoded_complete :
      k ≡ length cs
      → build_decoded version buffer
        ≡ ok (record {
          fml_network_version = version;
          channels = all_channels ms ++ cs;
          mods = map mod_of ms;
          truncated = t;
        })
  unfolding channels_loop ◌>>=◌
  build_decoded_complete full =
      let (b, b', u', v', start, run) = up_to_channels 0 (omega arith) in
      start ∙ completed version t (length ms) b b' (all_channels ms ++ cs) (map mod_of ms) run
