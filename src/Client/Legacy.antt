-- ===== src/Client/Legacy.antt =====
-- mcstatus/_protocol/legacy_client.py and bedrock_client.py: the clients of servers before 1.7 and of
-- Bedrock.

use mcstatus_rust.Prelude.{
  ℕ, ◌+◌, ◌-◌, ◌*◌, not, ◌&&◌, ◌||◌, Option, List, [], ◌∷◌, codes, length, take, drop, ltb, leb,
  ◌==◌, ◌=s=◌, if◌then◌else◌,
}
use mcstatus_rust.Prelude.Int.{pos_part}
use mcstatus_rust.Prelude.Exec.{
  Exec, Result, ok, err, os_error, unicode_error, raise, lift, ◌>>=◌, ◌>>◌, bind_result,
}
use mcstatus_rust.Io.Text.{Str, Bytes, cons_ok, utf8_decode}
use mcstatus_rust.Io.Struct.{ushort, unpack}
use mcstatus_rust.Io.Reader.{read_value}
use mcstatus_rust.Client.Java.{Connection}
use mcstatus_rust.Response.Strings.{split}
use mcstatus_rust.Response.Legacy.{LegacyStatusResponse, build_legacy}
use mcstatus_rust.Response.Bedrock.{BedrockStatusResponse, build_bedrock}

-- `data.decode("UTF-16BE")`
unfoldable pub utf16_decode : Bytes → Result Str
utf16_decode [] = ok []
utf16_decode (a ∷ []) = err unicode_error
utf16_decode (a ∷ b ∷ []) =
    let unit = a * 256 + b in
    if leb 0xD800 unit && ltb unit 0xE000 then err unicode_error else ok (unit ∷ [])
utf16_decode (a ∷ b ∷ c ∷ []) = err unicode_error
utf16_decode (a ∷ b ∷ c ∷ d ∷ rest) =
    let unit = a * 256 + b in
    let low = c * 256 + d in
    let one = utf16_decode (c ∷ d ∷ rest) in
    let two = utf16_decode rest in
    if ltb unit 0xD800 || leb 0xE000 unit
    then cons_ok unit one
    else if ltb unit 0xDC00 && (leb 0xDC00 low && ltb low 0xE000)
    then cons_ok (0x10000 + (unit - 0xD800) * 1024 + (low - 0xDC00)) two
    else err unicode_error

-- `request_status_data`
abbrev pub request_status_data : Bytes
request_status_data = 0xFE ∷ 0x01 ∷ 0xFA ∷ []

-- `"§1"`
abbrev pub modern : Str
modern = 0xA7 ∷ b'1' ∷ []

-- A kick packet from before 1.4 gets the parts that it does not have.
unfoldable pub complete : Str → List Str → Result (List Str)
complete head rest =
    let parts = codes "-1" ∷ codes "<1.4" ∷ split 0xA7 head in
    if head =s= modern then ok rest else if length parts == 5 then ok parts else err os_error

module _ {Latency : Type 0} (decimal : ℕ → Option ℕ) where
  -- Without its first part, which says that the others are there.
  abbrev pub build_parts : Latency → List Str → Result (LegacyStatusResponse Latency)
  build_parts latency [] = err os_error
  build_parts latency (head ∷ rest) =
      bind_result (complete head rest) (λ parts. build_legacy decimal parts latency)

  -- `parse_response`
  unfoldable pub parse_response : Bytes → Latency → Result (LegacyStatusResponse Latency)
  unfolding complete utf16_decode split build_legacy
  parse_response data_ latency =
      bind_result (utf16_decode data_) (λ text. build_parts latency (split 0 text))

  -- `LegacyClient.read_status`
  unfoldable pub read_status :
      {S : Type 0} → Connection S → Latency → Exec S (LegacyStatusResponse Latency)
  unfolding parse_response
  read_status connection latency = do
    connection.writer.write request_status_data
    id ← connection.reader.read 1
    if not (id =s= 0xFF ∷ []) then raise os_error else do
      n ← read_value connection.reader ushort
      data_ ← connection.reader.read (pos_part n * 2)
      lift (parse_response data_ latency)

  -- `BedrockClient.parse_response`
  unfoldable pub parse_bedrock : Bytes → Latency → Result (BedrockStatusResponse Latency)
  unfolding build_bedrock split
  parse_bedrock data_ latency =
      let body = drop 1 data_ in
      bind_result (unpack ushort (take 2 (drop 32 body))) (λ name_length.
        bind_result (utf8_decode (take (pos_part name_length) (drop 34 body)))
          (λ text. build_bedrock decimal (split b';' text) latency))
