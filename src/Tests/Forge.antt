-- ===== src/Tests/Forge.antt =====
-- Forge data that are complete, and that are cut off, at concrete inputs.
use mcstatus_rust.Prelude.{
  ℕ, ◌≡◌, refl, sym, append-nil, true, none, some, [], ◌∷◌, ◌++◌, arith, if◌then◌else◌,
}
use mcstatus_rust.Prelude.Int.{pos}
use mcstatus_rust.Prelude.Exec.{Exec, ok, err, os_error, ◌>>=◌, ◌>>◌}
use mcstatus_rust.Io.Text.{Str, Bytes, utf8_encode, utf8_char}
use mcstatus_rust.Io.Struct.{ushort, pack, is_signed, standard_size, to_be, pack_bool, calcsize}
use mcstatus_rust.Io.Twos.{to_twos_complement}
use mcstatus_rust.Io.Writer.{
  write_varint, write_varuint, varuint_loop, write_value, write_utf, write_bool,
}
use mcstatus_rust.Io.Writer.Encode.{sink, write_sink}
use mcstatus_rust.Io.Reader.{read_varint, read_varuint, read_value, read_utf}
use mcstatus_rust.Io.Reader.Stream.{stream, read_stream}
use mcstatus_rust.Io.Reader.Compose.{IsWireText}
use mcstatus_rust.Io.Buffer.{init, unread_view}
use mcstatus_rust.Response.Forge.Decode.{
  ForgeDataChannel, decode_mod, decode_channel, build_decoded,
}
use mcstatus_rust.Response.Forge.Laws.{encode_channels}
use mcstatus_rust.Response.Forge.Wire.{WireMod, IsWireMod, encode_mods}
use mcstatus_rust.Response.Forge.Header.{encode_header}
use mcstatus_rust.Response.Forge.Truncated.{
  build_decoded-mods, build_decoded-channels, build_decoded_complete,
}

abbrev letter : Str
letter = b'a' ∷ []

letter_encodes : utf8_encode letter ≡ ok letter
unfolding utf8_encode utf8_char
letter_encodes = refl

letter-IsWireText : IsWireText letter
letter-IsWireText = record {
  code_points = (omega arith, tt);
  encoded = letter;
  encodes = letter_encodes;
  short_enough = omega arith;
}

-- A mod `a` of version `a` without channels, and a channel `a` of version `a`.
abbrev plain : WireMod
plain = record { mod_id = letter; marker = some letter; channels = [] }

plain-IsWireMod : IsWireMod plain
plain-IsWireMod = record {
  id = letter-IsWireText;
  mark = letter-IsWireText;
  wire_channels = tt;
  few = omega arith;
}

abbrev loose : ForgeDataChannel
loose = record { name = letter; version = letter; required = true }

-- Two mods are announced, and the data end behind the first.
abbrev one_of_two : Bytes
one_of_two = 1 ∷ 0 ∷ 2 ∷ 0 ∷ 1 ∷ b'a' ∷ 1 ∷ b'a' ∷ []

two_packed : pack ushort (pos 2) ≡ ok (0 ∷ 2 ∷ [])
unfolding pack is_signed standard_size to_be to_twos_complement
two_packed = refl

one_packed : pack ushort (pos 1) ≡ ok (0 ∷ 1 ∷ [])
unfolding pack is_signed standard_size to_be to_twos_complement
one_packed = refl

one_of_two_encoded : (encode_header true 2 >> encode_mods (plain ∷ [])) [] ≡ (ok tt, one_of_two)
unfolding ◌>>=◌ write_bool write_value write_varint write_varuint varuint_loop write_utf write_sink
    pack pack_bool is_signed standard_size to_be to_twos_complement utf8_encode utf8_char
one_of_two_encoded = refl

no_mod : decode_mod stream [] ≡ (err os_error, [])
unfolding decode_mod read_varint read_varuint read_value read_stream calcsize standard_size ◌>>=◌
no_mod = refl

no_channel : decode_channel stream none [] ≡ (err os_error, [])
unfolding decode_channel read_utf read_varint read_varuint read_value read_stream calcsize
    standard_size ◌>>=◌
no_channel = refl

unread_init : (raw : Bytes) → unread_view (init raw) ≡ raw ++ []
unfolding unread_view init
unread_init raw = sym (append-nil raw)

build_decoded-mods_example : build_decoded (pos 3) (init one_of_two) ≡ (
    if true
    then ok (record {
      fml_network_version = pos 3;
      channels = [];
      mods = record { name = letter; marker = letter } ∷ [];
      truncated = true;
    })
    else err os_error)
unfolding init
build_decoded-mods_example =
    build_decoded-mods (pos 3) true 2 (plain ∷ []) (init one_of_two) one_of_two [] [] two_packed
      (plain-IsWireMod, tt) one_of_two_encoded (omega arith) (unread_init one_of_two) (omega arith)
      no_mod

-- One mod, and one of as many channels as are announced.
abbrev with_channel : ℕ → Bytes
with_channel count = 1 ∷ 0 ∷ 1 ∷ 0 ∷ 1 ∷ b'a' ∷ 1 ∷ b'a' ∷ count ∷ 1 ∷ b'a' ∷ 1 ∷ b'a' ∷ 1 ∷ []

abbrev announcing : ℕ → Exec Bytes (Unit {0})
announcing count =
    encode_header true 1
    >> (encode_mods (plain ∷ []) >> (write_varint sink (pos count) >> encode_channels (loose ∷ [])))

one_channel_encoded : announcing 1 [] ≡ (ok tt, with_channel 1)
unfolding ◌>>=◌ write_bool write_value write_varint write_varuint varuint_loop write_utf write_sink
    pack pack_bool is_signed standard_size to_be to_twos_complement utf8_encode utf8_char
one_channel_encoded = refl

two_channels_encoded : announcing 2 [] ≡ (ok tt, with_channel 2)
unfolding ◌>>=◌ write_bool write_value write_varint write_varuint varuint_loop write_utf write_sink
    pack pack_bool is_signed standard_size to_be to_twos_complement utf8_encode utf8_char
two_channels_encoded = refl

build_decoded-channels_example : build_decoded (pos 3) (init (with_channel 2)) ≡ (
    if true
    then ok (record {
      fml_network_version = pos 3;
      channels = loose ∷ [];
      mods = record { name = letter; marker = letter } ∷ [];
      truncated = true;
    })
    else err os_error)
unfolding init
build_decoded-channels_example =
    build_decoded-channels (pos 3) true (plain ∷ []) 2 (loose ∷ []) (init (with_channel 2))
      (with_channel 2) [] one_packed (omega arith) (plain-IsWireMod, tt)
      ((letter-IsWireText, letter-IsWireText), tt) two_channels_encoded (omega arith)
      (unread_init (with_channel 2)) [] (omega arith) no_channel

build_decoded_complete_example :
    build_decoded (pos 3) (init (with_channel 1))
    ≡ ok (record {
      fml_network_version = pos 3;
      channels = loose ∷ [];
      mods = record { name = letter; marker = letter } ∷ [];
      truncated = true;
    })
unfolding init
build_decoded_complete_example =
    build_decoded_complete (pos 3) true (plain ∷ []) 1 (loose ∷ []) (init (with_channel 1))
      (with_channel 1) [] one_packed (omega arith) (plain-IsWireMod, tt)
      ((letter-IsWireText, letter-IsWireText), tt) one_channel_encoded (omega arith)
      (unread_init (with_channel 1)) refl
