-- ===== src/Io/Writer/Refine.antt =====
-- mcstatus/_protocol/io/base_io.py: the methods of a writer, and those of the sink that it stands for.
use mcstatus_rust.Prelude.{ℕ, zero, suc, ◌/◌, ◌%◌, ◌+◌, ◌==◌}
use mcstatus_rust.Prelude.Int.{ℤ, pos, negsuc}
use mcstatus_rust.Prelude.Exec.{Simulates, Simulates-if, Simulates-bind, sim_rules}
use mcstatus_rust.Io.Text.{Str, Bytes}
use mcstatus_rust.Io.Struct.{IntFormat, ubyte}
use mcstatus_rust.Io.Writer.{
  Writer, write_value, varuint_loop, write_varuint, write_varint, write_bytearray, write_ascii,
  write_utf,
}
use mcstatus_rust.Io.Writer.Encode.{sink, write_sink}

-- `w` adds its bytes to the output that `written` shows.
pub record IsWriter {S : Type 0} (inv : S → Type 0) (written : S → Bytes) (w : Writer S)
    : Type 0 where
  pub writes : (bs : Bytes) → Simulates inv written (w.write bs) (write_sink bs)

module _ {S : Type 0} {inv : S → Type 0} {written : S → Bytes} {w : Writer S}
    (h : IsWriter inv written w) where
  pub sim-write_value :
      (fmt : IntFormat) (z : ℤ)
      → Simulates inv written (write_value w fmt z) (write_value sink fmt z)
  unfolding write_value
  sim-write_value fmt z = search (sim_rules, h.writes)

  sim-varuint_loop : (k n : ℕ) → Simulates inv written (varuint_loop w k n) (varuint_loop sink k n)
  unfolding varuint_loop
  sim-varuint_loop zero n = search sim_rules
  sim-varuint_loop (suc k) n = Simulates-if (n / 128 == 0) _ _ _ _ (sim-write_value ubyte (pos n)) (
      Simulates-bind _ _ _ _ (sim-write_value ubyte (pos (n % 128 + 128)))
        (λ _. sim-varuint_loop k (n / 128)))

  sim-write_varuint :
      (z : ℤ) (m : ℕ) → Simulates inv written (write_varuint w z m) (write_varuint sink z m)
  unfolding write_varuint
  sim-write_varuint (pos n) m = search (sim_rules, sim-varuint_loop)
  sim-write_varuint (negsuc n) m = search sim_rules

  pub sim-write_varint : (z : ℤ) → Simulates inv written (write_varint w z) (write_varint sink z)
  unfolding write_varint
  sim-write_varint z = search (sim_rules, sim-write_varuint)

  pub sim-write_bytearray :
      (bs : Bytes) → Simulates inv written (write_bytearray w bs) (write_bytearray sink bs)
  unfolding write_bytearray
  sim-write_bytearray bs = search (sim_rules, sim-write_varint, h.writes)

  pub sim-write_ascii : (s : Str) → Simulates inv written (write_ascii w s) (write_ascii sink s)
  unfolding write_ascii
  sim-write_ascii s = search (sim_rules, h.writes)

  pub sim-write_utf : (s : Str) → Simulates inv written (write_utf w s) (write_utf sink s)
  unfolding write_utf
  sim-write_utf s = search (sim_rules, sim-write_varint, h.writes)
