-- ===== src/Io/Buffer.antt =====
-- mcstatus/_protocol/io/buffer.py: the class `Buffer`, a `bytearray` with a read position.
pub mod Laws
use mcstatus_rust.Prelude.{
  ℕ, ◌+◌, ◌-◌, List, [], ◌++◌, length, take, drop, Bool, ltb, if◌then◌else◌,
}
use mcstatus_rust.Prelude.Int.{ℤ, pos, negsuc}
use mcstatus_rust.Prelude.Exec.{Exec, ok, err, os_error}
use mcstatus_rust.Io.Text.{Bytes}
use mcstatus_rust.Io.Writer.{Writer}
use mcstatus_rust.Io.Reader.{Reader}

pub record Buffer : Type 0 where
  pub content : Bytes
  pub pos : ℕ

-- `Buffer(ints)` and `Buffer()`
unfoldable pub init : Bytes → Buffer
init raw = record { content = raw; pos = 0 }

unfoldable pub write : Bytes → Exec Buffer (Unit {0})
write raw b = (ok tt, record b { content = b.content ++ raw })

unfoldable pub unread_view : Buffer → Bytes
unread_view b = drop b.pos b.content

-- The position moves in both cases: to the end where too little is left.
unfoldable pub read : ℤ → Exec Buffer Bytes
unfolding unread_view
read (negsuc n) b = (err os_error, b)
read (pos n) b =
    if ltb (length b.content) (b.pos + n)
    then (err os_error, record b { pos = length b.content })
    else (ok (take n (unread_view b)), record b { pos = b.pos + n })

unfoldable pub clear : Bool → Buffer → Buffer
clear only_already_read b = record {
  content = if only_already_read then drop b.pos b.content else [];
  pos = 0;
}

unfoldable pub reset : Buffer → Buffer
reset b = record b { pos = 0 }

unfoldable pub flush : Buffer → Bytes × Buffer
unfolding unread_view clear
flush b = (unread_view b, clear Bool.false b)

unfoldable pub remaining : Buffer → ℕ
remaining b = length b.content - b.pos

-- `Buffer` as a `BaseSyncReader` and a `BaseSyncWriter`.
abbrev pub buffer_reader : Reader Buffer
buffer_reader = record { read = λ n. read (ℤ.pos n) }

abbrev pub buffer_writer : Writer Buffer
buffer_writer = record { write = write }
