-- ===== src/Client/Query.antt =====
-- mcstatus/_protocol/query_client.py: the packets of the query protocol.
pub mod Takes
pub mod Rounds
use mcstatus_rust.Prelude.{
  ℕ, zero, suc, Bool, true, false, ◌||◌, ◌&&◌, Option, none, some, List, [], ◌∷◌, ◌++◌, codes,
  length, ◌=s=◌, ◌==◌, if◌then◌else◌,
}
use mcstatus_rust.Prelude.Int.{ℤ, pos}
use mcstatus_rust.Prelude.Exec.{Exec, ok, out_of_rounds, pure, raise, lift, ◌>>=◌, ◌>>◌}
use mcstatus_rust.Io.Text.{Str, Bytes, latin1_decode}
use mcstatus_rust.Io.Struct.{ubyte, uint, int}
use mcstatus_rust.Io.Writer.{Writer, write_value}
use mcstatus_rust.Io.Reader.{read_ascii}
use mcstatus_rust.Io.Buffer.{Buffer, init, read, unread_view, buffer_reader, buffer_writer}
use mcstatus_rust.Client.Java.{Connection, packet_bytes}
use mcstatus_rust.Response.Strings
use mcstatus_rust.Response.Query.{RawQueryResponse, QueryResponse, build_query}

-- `MAGIC_PREFIX`
abbrev pub magic_prefix : Bytes
magic_prefix = 0xFE ∷ 0xFD ∷ []

-- `PADDING`
abbrev pub padding : Bytes
padding = 0 ∷ 0 ∷ 0 ∷ 0 ∷ []

-- The packets, with the random session id that `_generate_session_id` gives.
module _ {S : Type 0} (w : Writer S) (session_id : ℕ) where
  -- `_create_packet`
  unfoldable pub create_packet : ℤ → Exec S (Unit {0})
  create_packet challenge = do
    w.write magic_prefix
    write_value w ubyte (pos 0)
    write_value w uint (pos session_id)
    write_value w int challenge
    w.write padding

  -- `_create_handshake_packet`
  unfoldable pub create_handshake_packet : Exec S (Unit {0})
  create_handshake_packet = do
    w.write magic_prefix
    write_value w ubyte (pos 9)
    write_value w uint (pos session_id)

-- Whether the bytes begin with a text.
unfoldable pub starts_with : Str → Bytes → Bool
starts_with [] bs = true
starts_with (c ∷ s) [] = false
starts_with (c ∷ s) (b ∷ bs) = c == b && starts_with s bs

-- `(hostip|hostport|…|version)`
unfoldable pub starts_with_any : List Str → Bytes → Bool
unfolding starts_with
starts_with_any [] bs = false
starts_with_any (k ∷ ks) bs = starts_with k bs || starts_with_any ks bs

abbrev pub next_keys : List Str
next_keys =
    codes "hostip"
    ∷ codes "hostport"
    ∷ codes "game_id"
    ∷ codes "gametype"
    ∷ codes "map"
    ∷ codes "maxplayers"
    ∷ codes "numplayers"
    ∷ codes "plugins"
    ∷ codes "version"
    ∷ []

abbrev starts_field : Bytes → Bool
starts_field [] = false
starts_field (b ∷ bs) = b == 0 && starts_with_any next_keys bs

abbrev cons_some : ℕ → Option Bytes → Option Bytes
cons_some b none = none
cons_some b (some bs) = some (b ∷ bs)

-- Group 1 of the match of `rb"(.*?)\x00(hostip|…)"`: the bytes before the first field that follows.
unfoldable pub motd_of : Bytes → Option Bytes
unfolding starts_with_any
motd_of [] = none
motd_of (b ∷ bs) =
    let more = cons_some b (motd_of bs) in if starts_field (b ∷ bs) then some [] else more

abbrev pub motd_length : Option Bytes → ℕ
motd_length none = 0
motd_length (some motd) = length motd

-- The loop over the fields, with as many rounds as it may take: each round reads a byte at least.
unfoldable pub fields_loop : ℕ → ℕ → RawQueryResponse → Exec Buffer RawQueryResponse
unfolding motd_of
fields_loop zero n data_ = raise out_of_rounds
fields_loop (suc k) n data_ = do
  key ← read_ascii buffer_reader n
  let hostname = (do
    unread ← (λ b. (ok (unread_view b), b))
    value ← read (pos (motd_length (motd_of unread)))
    read (pos 1)
    fields_loop k n ((key, latin1_decode value) ∷ data_))
  let end = (do read (pos 1); pure data_)
  let other = (do value ← read_ascii buffer_reader n; fields_loop k n ((key, value) ∷ data_))
  if key =s= codes "hostname" then hostname else if length key == 0 then end else other

-- The loop over the players.
unfoldable pub players_loop : ℕ → ℕ → List Str → Exec Buffer (List Str)
players_loop zero n players_list = raise out_of_rounds
players_loop (suc k) n players_list = do
  player ← read_ascii buffer_reader n
  let more = players_loop k n (players_list ++ player ∷ [])
  if length player == 0 then pure players_list else more

-- `_parse_response`: a round of a loop, and of `read_ascii`, reads a byte at least, so one more round
-- than there are bytes is enough.
unfoldable pub parse_response : Exec Buffer (RawQueryResponse × List Str)
unfolding fields_loop players_loop
parse_response = do
  unread ← (λ b. (ok (unread_view b), b))
  let n = suc (length unread)
  read (pos 11)
  data_ ← fields_loop n n []
  read (pos 9)
  players_list ← players_loop n n []
  pure (data_, players_list)

-- `_read_packet` skips five bytes; then comes the challenge.
unfoldable pub read_challenge : (ℕ → Option ℕ) → Exec Buffer ℤ
read_challenge decimal = do
  unread ← (λ b. (ok (unread_view b), b))
  read (pos 5)
  text ← read_ascii buffer_reader (suc (length unread))
  lift (Strings.int decimal text)

-- `_read_packet` and `_parse_response`
unfoldable pub parse_answer : Exec Buffer (RawQueryResponse × List Str)
unfolding parse_response
parse_answer = do read (pos 5); parse_response

module _ {S : Type 0} (connection : Connection S) (session_id : ℕ) (decimal : ℕ → Option ℕ) where
  -- `handshake`; the result is the new `challenge`. `remaining` of a UDP connection is 65535.
  unfoldable pub handshake : Exec S ℤ
  unfolding create_handshake_packet packet_bytes read_challenge
  handshake = do
    packet ← lift (packet_bytes (create_handshake_packet buffer_writer session_id))
    connection.writer.write packet
    data_ ← connection.reader.read 65535
    lift (read_challenge decimal (init data_)).0

  -- `read_query`
  unfoldable pub read_query : ℤ → Exec S QueryResponse
  unfolding create_packet packet_bytes parse_answer build_query
  read_query challenge = do
    request ← lift (packet_bytes (create_packet buffer_writer session_id challenge))
    connection.writer.write request
    data_ ← connection.reader.read 65535
    raw ← lift (parse_answer (init data_)).0
    lift (build_query decimal raw.0 raw.1)
