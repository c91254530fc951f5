-- ===== src/Io/Reader/Refine.antt =====
-- mcstatus/_protocol/io/base_io.py: the methods of a reader, and those of the stream that it stands for.
use mcstatus_rust.Prelude.{ℕ, zero, suc, ◌+◌, ◌%◌, ◌*◌, ◌^◌, ◌++◌, bit_or}
use mcstatus_rust.Prelude.Int.{ℤ, pos, negsuc, pos_part}
use mcstatus_rust.Prelude.Exec.{Simulates, sim_rules}
use mcstatus_rust.Io.Text.{Bytes}
use mcstatus_rust.Io.Struct.{IntFormat}
use mcstatus_rust.Io.Reader.{
  Reader, read_value, read_bool, varuint_loop, read_varuint, read_varint, read_varlong, read_prefix,
  read_bytearray, ascii_loop, read_ascii, read_utf,
}
use mcstatus_rust.Io.Reader.Stream.{stream, read_stream}

-- `r` reads from the bytes that `unread` shows.
pub record IsReader {S : Type 0} (inv : S → Type 0) (unread : S → Bytes) (r : Reader S)
    : Type 0 where
  pub reads : (n : ℕ) → Simulates inv unread (r.read n) (read_stream n)

module _ {S : Type 0} {inv : S → Type 0} {unread : S → Bytes} {r : Reader S}
    (h : IsReader inv unread r) where
  pub sim-read_value :
      (fmt : IntFormat) → Simulates inv unread (read_value r fmt) (read_value stream fmt)
  unfolding read_value
  sim-read_value fmt = search (sim_rules, h.reads)

  pub sim-read_bool : Simulates inv unread (read_bool r) (read_bool stream)
  unfolding read_bool
  sim-read_bool = search (sim_rules, h.reads)

  sim-varuint_loop :
      (m k i n : ℕ) → Simulates inv unread (varuint_loop r m k i n) (varuint_loop stream m k i n)
  unfolding varuint_loop
  sim-varuint_loop m zero i n = search sim_rules
  sim-varuint_loop m (suc k) i n = search (
    sim_rules,
    sim-read_value,
    λ (v : ℤ). sim-varuint_loop m k (i + 1) (bit_or n (pos_part v % 2 ^ 7 * 2 ^ (7 * i))),
  )

  pub sim-read_varint : Simulates inv unread (read_varint r) (read_varint stream)
  unfolding read_varint read_varuint
  sim-read_varint = search (sim_rules, sim-varuint_loop)

  pub sim-read_varlong : Simulates inv unread (read_varlong r) (read_varlong stream)
  unfolding read_varlong read_varuint
  sim-read_varlong = search (sim_rules, sim-varuint_loop)

  sim-read_prefix : (z : ℤ) → Simulates inv unread (read_prefix r z) (read_prefix stream z)
  unfolding read_prefix
  sim-read_prefix (pos n) = search sim_rules
  sim-read_prefix (negsuc n) = search sim_rules

  pub sim-read_bytearray : Simulates inv unread (read_bytearray r) (read_bytearray stream)
  unfolding read_bytearray
  sim-read_bytearray = search (sim_rules, sim-read_varint, sim-read_prefix, h.reads)

  sim-ascii_loop :
      (k : ℕ) (bs : Bytes) → Simulates inv unread (ascii_loop r k bs) (ascii_loop stream k bs)
  unfolding ascii_loop
  sim-ascii_loop zero bs = search sim_rules
  sim-ascii_loop (suc k) bs = search (sim_rules, h.reads, λ (b : Bytes). sim-ascii_loop k (bs ++ b))

  pub sim-read_ascii : (k : ℕ) → Simulates inv unread (read_ascii r k) (read_ascii stream k)
  unfolding read_ascii
  sim-read_ascii k = sim-ascii_loop k _

  pub sim-read_utf : Simulates inv unread (read_utf r) (read_utf stream)
  unfolding read_utf
  sim-read_utf = search (sim_rules, sim-read_varint, sim-read_prefix, h.reads) depth 9
