-- ===== src/Client/Keeps.antt =====
-- mcstatus/_protocol: what a connection keeps at each read and write, its clients keep.
use mcstatus_rust.Prelude.{
  ℕ, zero, suc, ◌+◌, ◌-◌, ◌%◌, ◌*◌, ◌/◌, ◌^◌, ◌++◌, bit_or, Option, [], length, ltb, ◌==◌,
}
use mcstatus_rust.Prelude.Int.{ℤ, pos, negsuc, pos_part}
use mcstatus_rust.Prelude.Exec.{Exec, Result, os_error, lift, ◌>>=◌, ◌>>◌}
use mcstatus_rust.Prelude.Keeps.{
  Keeps, Keeps-bind, Keeps-if, Keeps-lift, Keeps-pure, Keeps-raise, keep_rules,
}
use mcstatus_rust.Io.Text.{Str, Bytes}
use mcstatus_rust.Io.Struct.{IntFormat, ubyte}
use mcstatus_rust.Io.Writer
use mcstatus_rust.Io.Writer.{write_value, write_varuint, write_varint, write_bytearray}
use mcstatus_rust.Io.Reader
use mcstatus_rust.Io.Reader.{read_value, read_varuint, read_varint, read_prefix, read_bytearray}
use mcstatus_rust.Io.Connection.{tcp_loop, tcp_read, udp_read}
use mcstatus_rust.Net.{Address}
use mcstatus_rust.Client.Java
use mcstatus_rust.Client.Java.{Connection}
use mcstatus_rust.Client.Query
use mcstatus_rust.Client.Legacy
use mcstatus_rust.Response.Status.{RawJavaResponse}

pub record KeepsConnection {S : Type 0} (inv : S → Type 0) (c : Connection S) : Type 0 where
  pub reads : (n : ℕ) → Keeps inv (c.reader.read n)
  pub writes : (bs : Bytes) → Keeps inv (c.writer.write bs)

module _ {S : Type 0} {inv : S → Type 0} {recv : ℕ → Exec S Bytes}
    (h : (n : ℕ) → Keeps inv (recv n)) where
  Keeps-tcp_loop : (k n : ℕ) (result : Bytes) → Keeps inv (tcp_loop recv k n result)
  unfolding tcp_loop
  Keeps-tcp_loop zero n result = search keep_rules
  Keeps-tcp_loop (suc k) n result =
      Keeps-if (ltb (length result) n) _ _
        (Keeps-bind _ _ (h (n - length result)) (λ new.
          Keeps-if (length new == 0) _ _ (Keeps-raise os_error)
            (Keeps-tcp_loop k n (result ++ new))))
        (Keeps-pure result)

  pub Keeps-tcp_read : (n : ℕ) → Keeps inv (tcp_read recv n)
  unfolding tcp_read
  Keeps-tcp_read n = Keeps-tcp_loop n n []

module _ {S : Type 0} {inv : S → Type 0} {recvfrom : Exec S Bytes} (h : Keeps inv recvfrom) where
  pub Keeps-udp_read : (k : ℕ) → Keeps inv (udp_read recvfrom k)
  unfolding udp_read
  Keeps-udp_read zero = search keep_rules
  Keeps-udp_read (suc k) =
      Keeps-bind _ _ h
        (λ result. Keeps-if (length result == 0) _ _ (Keeps-udp_read k) (Keeps-pure result))

module _ {S : Type 0} {inv : S → Type 0} {c : Connection S} (h : KeepsConnection inv c) where
  Keeps-write_value : (fmt : IntFormat) (z : ℤ) → Keeps inv (write_value c.writer fmt z)
  unfolding write_value
  Keeps-write_value fmt z = search (keep_rules, h.writes)

  Keeps-write_loop : (k n : ℕ) → Keeps inv (Writer.varuint_loop c.writer k n)
  unfolding Writer.varuint_loop
  Keeps-write_loop zero n = search keep_rules
  Keeps-write_loop (suc k) n = Keeps-if (n / 128 == 0) _ _ (Keeps-write_value ubyte (pos n)) (
      Keeps-bind _ _ (Keeps-write_value ubyte (pos (n % 128 + 128)))
        (λ _. Keeps-write_loop k (n / 128)))

  Keeps-write_varuint : (z : ℤ) (m : ℕ) → Keeps inv (write_varuint c.writer z m)
  unfolding write_varuint
  Keeps-write_varuint (pos n) m = search (keep_rules, Keeps-write_loop)
  Keeps-write_varuint (negsuc n) m = search keep_rules

  pub Keeps-write_bytearray : (bs : Bytes) → Keeps inv (write_bytearray c.writer bs)
  unfolding write_bytearray write_varint
  Keeps-write_bytearray bs = search (keep_rules, Keeps-write_varuint, h.writes)

  pub Keeps-read_value : (fmt : IntFormat) → Keeps inv (read_value c.reader fmt)
  unfolding read_value
  Keeps-read_value fmt = search (keep_rules, h.reads)

  Keeps-read_loop : (m k i n : ℕ) → Keeps inv (Reader.varuint_loop c.reader m k i n)
  unfolding Reader.varuint_loop
  Keeps-read_loop m zero i n = search keep_rules
  Keeps-read_loop m (suc k) i n = search (
    keep_rules,
    Keeps-read_value,
    λ (v : ℤ). Keeps-read_loop m k (i + 1) (bit_or n (pos_part v % 2 ^ 7 * 2 ^ (7 * i))),
  )

  Keeps-read_varint : Keeps inv (read_varint c.reader)
  unfolding read_varint read_varuint
  Keeps-read_varint = search (keep_rules, Keeps-read_loop)

  Keeps-read_prefix : (z : ℤ) → Keeps inv (read_prefix c.reader z)
  unfolding read_prefix
  Keeps-read_prefix (pos n) = search keep_rules
  Keeps-read_prefix (negsuc n) = search keep_rules

  pub Keeps-read_bytearray : Keeps inv (read_bytearray c.reader)
  unfolding read_bytearray
  Keeps-read_bytearray = search (keep_rules, Keeps-read_varint, Keeps-read_prefix, h.reads)

  module _ {Latency : Type 0} (latency : Latency) where
    pub Keeps-java_handshake :
        (version : ℤ) (server : Address) → Keeps inv (Java.handshake c latency version server)
    unfolding Java.handshake
    Keeps-java_handshake version server = search (keep_rules, Keeps-write_bytearray)

    Keeps-exchange :
        {A : Type 0} (packet : Result Bytes) (answer : Bytes → Result A)
        → Keeps inv (do
          request ← lift packet
          write_bytearray c.writer request
          response ← read_bytearray c.reader
          lift (answer response))
    Keeps-exchange packet answer = Keeps-bind _ _ (Keeps-lift packet) (λ request.
        Keeps-bind _ _ (Keeps-write_bytearray request)
          (λ _. Keeps-bind _ _ Keeps-read_bytearray (λ response. Keeps-lift (answer response))))

    pub Keeps-test_ping : (token : ℤ) → Keeps inv (Java.test_ping c latency token)
    unfolding Java.test_ping
    Keeps-test_ping token = Keeps-exchange _ _

    pub Keeps-java_read_status :
        (decimal : ℕ → Option ℕ) (loads : Str → Result RawJavaResponse)
        → Keeps inv (Java.read_status c latency decimal loads)
    unfolding Java.read_status
    Keeps-java_read_status decimal loads = Keeps-exchange _ _

    pub Keeps-legacy_read_status :
        (decimal : ℕ → Option ℕ) → Keeps inv (Legacy.read_status decimal c latency)
    unfolding Legacy.read_status
    Keeps-legacy_read_status decimal =
        search (keep_rules, h.writes, h.reads, Keeps-read_value) depth 9

  pub Keeps-query_handshake :
      (session_id : ℕ) (decimal : ℕ → Option ℕ) → Keeps inv (Query.handshake c session_id decimal)
  unfolding Query.handshake
  Keeps-query_handshake session_id decimal = search (keep_rules, h.writes, h.reads)

  pub Keeps-read_query :
      (session_id : ℕ) (decimal : ℕ → Option ℕ) (challenge : ℤ)
      → Keeps inv (Query.read_query c session_id decimal challenge)
  unfolding Query.read_query
  Keeps-read_query session_id decimal challenge = search (keep_rules, h.writes, h.reads)
