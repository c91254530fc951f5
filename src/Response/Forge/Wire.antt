-- ===== src/Response/Forge/Wire.antt =====
-- mcstatus/responses/forge.py: the loops of `ForgeData.build` over mods and channels that a server wrote.
use mcstatus_rust.Prelude.{
  ℕ, zero, suc, ◌≡◌, ap, sym, ◌∙◌, Option, none, some, List, [], ◌∷◌, ◌++◌, ◌+◌, ◌<◌, ◌^◌, map,
  length, All, append_assoc, append-nil, arith,
}
use mcstatus_rust.Prelude.Exec.{Exec, ok, err, os_error, pure, bind_ok, bind_err, ◌>>=◌, ◌>>◌}
use mcstatus_rust.Io.Text.{Str, Bytes}
use mcstatus_rust.Io.Reader.Stream.{stream}
use mcstatus_rust.Io.Reader.Compose.{IsWireText}
use mcstatus_rust.Io.Reader.RoundTrip.{Carries}
use mcstatus_rust.Io.Buffer.{Buffer, unread_view, buffer_reader}
use mcstatus_rust.Io.Buffer.Laws.{IsValid}
use mcstatus_rust.Response.Forge.Decode.{
  ForgeDataChannel, ForgeDataMod, decode_channel, decode_mod, on_buffer, mods_loop, channels_loop,
}
use mcstatus_rust.Response.Forge.Laws.{
  encode_channel, channel-Carries, encode_mod, mod-Carries, named, marker_of, IsWireMarker,
  IsWireChannel,
}
use mcstatus_rust.Response.Forge.Follows.{
  sim-decode_channel, sim-decode_mod, follows, locals, on_buffer-eq,
}

-- A mod as a server has it.
pub record WireMod : Type 0 where
  pub mod_id : Str
  pub marker : Option Str
  pub channels : List ForgeDataChannel

pub record IsWireMod (m : WireMod) : Type 0 where
  pub id : IsWireText m.mod_id
  pub mark : IsWireMarker m.marker
  pub wire_channels : All IsWireChannel m.channels
  pub few : length m.channels < 2 ^ 30

abbrev pub mod_of : WireMod → ForgeDataMod
mod_of m = record { name = m.mod_id; marker = marker_of m.marker }

abbrev pub channels_of : WireMod → List ForgeDataChannel
channels_of m = map (named (some m.mod_id)) m.channels

abbrev pub all_channels : List WireMod → List ForgeDataChannel
all_channels [] = []
all_channels (m ∷ ms) = channels_of m ++ all_channels ms

-- What a server writes for its mods.
abbrev pub encode_mods : List WireMod → Exec Bytes (Unit {0})
encode_mods [] = pure tt
encode_mods (m ∷ ms) = encode_mod m.mod_id m.marker m.channels >> encode_mods ms

pub wire_mod :
    (m : WireMod)
    → IsWireMod m
    → Carries
        (encode_mod m.mod_id m.marker m.channels)
        (decode_mod stream)
        (mod_of m, channels_of m)
wire_mod m h = mod-Carries m.mod_id m.marker m.channels h.id h.mark h.wire_channels h.few

abbrev pub wires : (ms : List WireMod) → All IsWireMod ms → Bytes
wires [] h = []
wires (m ∷ ms) (h, hs) = (wire_mod m h).wire ++ wires ms hs

pub encode_mods-wires :
    (ms : List WireMod) (h : All IsWireMod ms) (out : Bytes)
    → encode_mods ms out ≡ (ok tt, out ++ wires ms h)
unfolding ◌>>=◌
encode_mods-wires [] h out = ap (λ w. (ok tt, w)) (sym (append-nil out))
encode_mods-wires (m ∷ ms) (h, hs) out =
    bind_ok (encode_mod m.mod_id m.marker m.channels) (λ _. encode_mods ms) out
      ((wire_mod m h).writes out)
    ∙ encode_mods-wires ms hs (out ++ (wire_mod m h).wire)
    ∙ ap (λ w. (ok tt, w)) (append_assoc out (wire_mod m h).wire (wires ms hs))

-- The mods that are complete are decoded, and the loop goes on behind them.
pub run_mods :
    (ms : List WireMod) (h : All IsWireMod ms) (n k : ℕ) (b : Buffer) (rest : Bytes)
    (cs : List ForgeDataChannel) (before : List ForgeDataMod)
    → n ≡ length ms + k
    → IsValid b
    → unread_view b ≡ wires ms h ++ rest
    → (b' : Buffer) × (unread_view b' ≡ rest)
      × IsValid b'
      × (mods_loop n (locals b cs before)
          ≡ mods_loop k (locals b' (cs ++ all_channels ms) (before ++ map mod_of ms)))
unfolding mods_loop ◌>>=◌
run_mods [] h n k b rest cs before e v u = (
  b,
  u,
  v,
  rw (append-nil cs, append-nil before)
      (ap (λ (x : ℕ). mods_loop x (locals b cs before)) (omega arith)),
)
run_mods (m ∷ ms) h zero k b rest cs before e v u = absurd (omega arith)
run_mods (m ∷ ms) (h, hs) (suc n) k b rest cs before e v u =
    let w = wire_mod m h in
    let (b', run, u', v') =
      follows (decode_mod buffer_reader) (decode_mod stream) b _ _ sim-decode_mod v (
        ap (decode_mod stream) (u ∙ append_assoc w.wire (wires ms hs) rest)
        ∙ w.reads (wires ms hs ++ rest)) in
    let (b2, u2, v2, later) =
      run_mods ms hs n k b' rest (cs ++ channels_of m) (before ++ mod_of m ∷ []) (omega arith) v'
        u' in
    (
      b2,
      u2,
      v2,
      bind_ok (on_buffer (decode_mod buffer_reader)) _ (locals b cs before)
            (on_buffer-eq (decode_mod buffer_reader) _ b b' cs before run)
          ∙ later
          ∙ ap (λ x. mods_loop k (locals b2 x ((before ++ mod_of m ∷ []) ++ map mod_of ms)))
              (append_assoc cs (channels_of m) (all_channels ms))
          ∙ ap (λ x. mods_loop k (locals b2 (cs ++ all_channels (m ∷ ms)) x))
              (append_assoc before (mod_of m ∷ []) (map mod_of ms)),
    )

-- A mod that is cut off adds nothing, neither itself nor the channels that were read of it.
pub stuck_mods :
    (n : ℕ) (b : Buffer) (cs : List ForgeDataChannel) (ms : List ForgeDataMod) (left : Bytes)
    → 0 < n
    → IsValid b
    → decode_mod stream (unread_view b) ≡ (err os_error, left)
    → (b' : Buffer) × (mods_loop n (locals b cs ms) ≡ (err os_error, locals b' cs ms))
unfolding mods_loop
stuck_mods zero b cs ms left p v e = absurd (omega arith)
stuck_mods (suc n) b cs ms left p v e =
    let (b', run, u', v') =
      follows (decode_mod buffer_reader) (decode_mod stream) b _ _ sim-decode_mod v e in
    (
      b',
      bind_err (on_buffer (decode_mod buffer_reader)) _ (locals b cs ms)
          (on_buffer-eq (decode_mod buffer_reader) _ b b' cs ms run),
    )

-- The same of the channels that belong to no mod.
pub wire_channel :
    (c : ForgeDataChannel)
    → IsWireChannel c
    → Carries (encode_channel c) (decode_channel stream none) c
wire_channel c h = channel-Carries none c h

abbrev pub channel_wires : (cs : List ForgeDataChannel) → All IsWireChannel cs → Bytes
channel_wires [] h = []
channel_wires (c ∷ cs) (h, hs) = (wire_channel c h).wire ++ channel_wires cs hs

pub run_channels :
    (cs : List ForgeDataChannel) (h : All IsWireChannel cs) (n k : ℕ) (b : Buffer) (rest : Bytes)
    (before : List ForgeDataChannel) (ms : List ForgeDataMod)
    → n ≡ length cs + k
    → IsValid b
    → unread_view b ≡ channel_wires cs h ++ rest
    → (b' : Buffer) × (unread_view b' ≡ rest)
      × IsValid b'
      × (channels_loop n (locals b before ms) ≡ channels_loop k (locals b' (before ++ cs) ms))
unfolding channels_loop ◌>>=◌
run_channels [] h n k b rest before ms e v u = (
  b,
  u,
  v,
  rw (append-nil before) (ap (λ (x : ℕ). channels_loop x (locals b before ms)) (omega arith)),
)
run_channels (c ∷ cs) h zero k b rest before ms e v u = absurd (omega arith)
run_channels (c ∷ cs) (h, hs) (suc n) k b rest before ms e v u =
    let w = wire_channel c h in
    let (b', run, u', v') =
      follows (decode_channel buffer_reader none) (decode_channel stream none) b _ _
        (sim-decode_channel none) v
        (ap (decode_channel stream none) (u ∙ append_assoc w.wire (channel_wires cs hs) rest)
          ∙ w.reads (channel_wires cs hs ++ rest)) in
    let (b2, u2, v2, later) =
      run_channels cs hs n k b' rest (before ++ c ∷ []) ms (omega arith) v' u' in
    (
      b2,
      u2,
      v2,
      bind_ok (on_buffer (decode_channel buffer_reader none)) _ (locals b before ms)
            (on_buffer-eq (decode_channel buffer_reader none) _ b b' before ms run)
          ∙ later
          ∙ ap (λ x. channels_loop k (locals b2 x ms)) (append_assoc before (c ∷ []) cs),
    )

pub stuck_channels :
    (n : ℕ) (b : Buffer) (cs : List ForgeDataChannel) (ms : List ForgeDataMod) (left : Bytes)
    → 0 < n
    → IsValid b
    → decode_channel stream none (unread_view b) ≡ (err os_error, left)
    → (b' : Buffer) × (channels_loop n (locals b cs ms) ≡ (err os_error, locals b' cs ms))
unfolding channels_loop
stuck_channels zero b cs ms left p v e = absurd (omega arith)
stuck_channels (suc n) b cs ms left p v e =
    let (b', run, u', v') =
      follows (decode_channel buffer_reader none) (decode_channel stream none) b _ _
        (sim-decode_channel none) v e in
    (
      b',
      bind_err (on_buffer (decode_channel buffer_reader none)) _ (locals b cs ms)
          (on_buffer-eq (decode_channel buffer_reader none) _ b b' cs ms run),
    )
