-- ===== src/Response/Forge/Laws.antt =====
-- mcstatus/responses/forge.py: mods with their channels, written and decoded.
use mcstatus_rust.Prelude.{
  ℕ, ◌≡◌, true, false, Option, none, some, List, [], ◌∷◌, ◌++◌, ◌+◌, ◌*◌, ◌^◌, ◌<◌, map, arith,
  length, All,
}
use mcstatus_rust.Prelude.Int.{pos}
use mcstatus_rust.Prelude.Exec.{Exec, pure, ◌>>◌}
use mcstatus_rust.Io.Text.{Str, Bytes}
use mcstatus_rust.Io.Writer.{write_varint, write_utf, write_bool}
use mcstatus_rust.Io.Writer.Encode.{sink}
use mcstatus_rust.Io.Reader.Stream.{stream}
use mcstatus_rust.Io.Reader.RoundTrip.{varint-Carries, Carries}
use mcstatus_rust.Io.Reader.Compose.{
  pure-Carries, bind-Carries, map-Carries, bool-Carries, IsWireText, text-Carries,
}
use mcstatus_rust.Response.Forge.Decode.{
  ForgeDataChannel, lowest_bit, channel_count, ignore_server_only, decode_mod, decode_channel,
  decode_channels,
}

-- What a server writes for a channel.
abbrev pub encode_channel : ForgeDataChannel → Exec Bytes (Unit {0})
encode_channel c = do write_utf sink c.name; write_utf sink c.version; write_bool sink c.required

abbrev pub encode_channels : List ForgeDataChannel → Exec Bytes (Unit {0})
encode_channels [] = pure tt
encode_channels (c ∷ cs) = encode_channel c >> encode_channels cs

abbrev pub IsWireChannel : ForgeDataChannel → Type 0
IsWireChannel c = IsWireText c.name × IsWireText c.version

-- The channel of a mod has the mod's id in front of its name.
abbrev pub named : Option Str → ForgeDataChannel → ForgeDataChannel
named none c = c
named (some mod_id) c = record {
  name = mod_id ++ b':' ∷ c.name;
  version = c.version;
  required = c.required;
}

pub channel-Carries :
    (o : Option Str) (c : ForgeDataChannel)
    → IsWireChannel c
    → Carries (encode_channel c) (decode_channel stream o) (named o c)
unfolding decode_channel
channel-Carries none c h = bind-Carries _ _ _ _ (text-Carries c.name h.0) (
    bind-Carries _ _ _ _ (text-Carries c.version h.1) (
      map-Carries _ _ (λ r. record { name = c.name; version = c.version; required = r })
        (bool-Carries c.required)))
channel-Carries (some i) c h = bind-Carries _ _ _ _ (text-Carries c.name h.0) (
    bind-Carries _ _ _ _ (text-Carries c.version h.1) (
      map-Carries _ _ (λ r. record { name = i ++ b':' ∷ c.name; version = c.version; required = r })
        (bool-Carries c.required)))

abbrev cons : {A : Type 0} → A → List A → List A
cons a rest = a ∷ rest

channels-Carries :
    (o : Option Str) (cs : List ForgeDataChannel)
    → All IsWireChannel cs
    → Carries (encode_channels cs) (decode_channels stream (length cs) o) (map (named o) cs)
unfolding decode_channels
channels-Carries o [] h = pure-Carries []
channels-Carries o (c ∷ cs) h =
    bind-Carries _ _ _ _ (channel-Carries o c h.0)
      (map-Carries _ _ (cons (named o c)) (channels-Carries o cs h.1))

-- What a server writes for a mod: with a marker, or without one for a mod of the server alone.
abbrev flags : Option Str → ℕ → ℕ
flags (some marker) n = n * 2
flags none n = n * 2 + 1

abbrev encode_marker : Option Str → Exec Bytes (Unit {0})
encode_marker (some marker) = write_utf sink marker
encode_marker none = pure tt

abbrev pub encode_mod : Str → Option Str → List ForgeDataChannel → Exec Bytes (Unit {0})
encode_mod mod_id marker cs = do
  write_varint sink (pos (flags marker (length cs)))
  write_utf sink mod_id
  encode_marker marker
  encode_channels cs

abbrev pub marker_of : Option Str → Str
marker_of (some marker) = marker
marker_of none = ignore_server_only

abbrev pub IsWireMarker : Option Str → Type 0
IsWireMarker (some marker) = IsWireText marker
IsWireMarker none = Unit {0}

even_flags : (n : ℕ) → (lowest_bit (pos (n * 2)) ≡ false) × (channel_count (pos (n * 2)) ≡ n)
unfolding lowest_bit channel_count
even_flags n = (ground arith, omega arith)

odd_flags : (n : ℕ) → (lowest_bit (pos (n * 2 + 1)) ≡ true) × (channel_count (pos (n * 2 + 1)) ≡ n)
unfolding lowest_bit channel_count
odd_flags n = (ground arith, omega arith)

-- A mod that a server writes, with fewer than 2 ^ 30 channels and texts that the wire format can hold,
-- is decoded to its id, its marker or the text that stands for a missing one, and its channels with
-- the id in front of their names, whatever follows.
pub mod-Carries :
    (mod_id : Str) (marker : Option Str) (cs : List ForgeDataChannel)
    → IsWireText mod_id
    → IsWireMarker marker
    → All IsWireChannel cs
    → length cs < 2 ^ 30
    → Carries
        (encode_mod mod_id marker cs)
        (decode_mod stream)
        (record { name = mod_id; marker = marker_of marker }, map (named (some mod_id)) cs)
unfolding decode_mod
mod-Carries mod_id (some v) cs hi hm hc small =
    bind-Carries _ _ _ _ (varint-Carries (pos (length cs * 2)) (omega arith)) (
      bind-Carries _ _ _ _ (text-Carries mod_id hi) (
        rw ((even_flags (length cs)).0, (even_flags (length cs)).1)
          (bind-Carries _ _ _ _ (text-Carries v hm) (
            map-Carries _ _ (λ cs'. (record { name = mod_id; marker = v }, cs'))
              (channels-Carries (some mod_id) cs hc)))))
mod-Carries mod_id none cs hi hm hc small =
    bind-Carries _ _ _ _ (varint-Carries (pos (length cs * 2 + 1)) (omega arith)) (
      bind-Carries _ _ _ _ (text-Carries mod_id hi) (
        rw ((odd_flags (length cs)).0, (odd_flags (length cs)).1)
          (bind-Carries _ _ _ _ (pure-Carries ignore_server_only) (
            map-Carries _ _ (λ cs'. (record { name = mod_id; marker = ignore_server_only }, cs'))
              (channels-Carries (some mod_id) cs hc)))))
