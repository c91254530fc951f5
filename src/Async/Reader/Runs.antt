-- ===== src/Async/Reader/Runs.antt =====
-- mcstatus/_protocol/io/base_io.py: the methods of an asynchronous reader, and those of the synchronous one.
use mcstatus_rust.Prelude.{ℕ, zero, suc, ◌+◌, ◌%◌, ◌*◌, ◌^◌, ◌++◌, bit_or}
use mcstatus_rust.Prelude.Int.{ℤ, pos, negsuc, pos_part}
use mcstatus_rust.Prelude.Exec.{Exec}
use mcstatus_rust.Async.Task.{Task, Runs, Runs-bind, Runs-if, Runs-pure, run_rules}
use mcstatus_rust.Io.Text.{Bytes}
use mcstatus_rust.Io.Struct.{IntFormat}
use mcstatus_rust.Io.Reader
use mcstatus_rust.Io.Reader.{Reader}
use mcstatus_rust.Async.Reader.{
  AsyncReader, read_value, read_bool, varuint_loop, read_varuint, read_varint, read_varlong,
  read_prefix, read_bytearray, ascii_loop, read_ascii, read_utf, read_optional,
}

module _ {S Op : Type 0} {Answer : Op → Type 0} where
  -- The tasks of `a` do what `r` does.
  pub record IsServed (serve : (op : Op) → Exec S (Answer op)) (a : AsyncReader Op Answer)
      (r : Reader S) : Type 0 where
    pub reads : (n : ℕ) → Runs serve (a.read n) (r.read n)

module _ {S Op : Type 0} {Answer : Op → Type 0} {serve : (op : Op) → Exec S (Answer op)}
    {a : AsyncReader Op Answer} {r : Reader S} (h : IsServed serve a r) where
  pub Runs-read_value : (fmt : IntFormat) → Runs serve (read_value a fmt) (Reader.read_value r fmt)
  unfolding read_value Reader.read_value
  Runs-read_value fmt = search (run_rules, h.reads)

  Runs-read_bool : Runs serve (read_bool a) (Reader.read_bool r)
  unfolding read_bool Reader.read_bool
  Runs-read_bool = search (run_rules, h.reads)

  Runs-varuint_loop :
      (m k i n : ℕ) → Runs serve (varuint_loop a m k i n) (Reader.varuint_loop r m k i n)
  unfolding varuint_loop Reader.varuint_loop
  Runs-varuint_loop m zero i n = search run_rules
  Runs-varuint_loop m (suc k) i n = search (
    run_rules,
    Runs-read_value,
    λ (v : ℤ). Runs-varuint_loop m k (i + 1) (bit_or n (pos_part v % 2 ^ 7 * 2 ^ (7 * i))),
  )

  pub Runs-read_varint : Runs serve (read_varint a) (Reader.read_varint r)
  unfolding read_varint Reader.read_varint read_varuint Reader.read_varuint
  Runs-read_varint = search (run_rules, Runs-varuint_loop)

  pub Runs-read_varlong : Runs serve (read_varlong a) (Reader.read_varlong r)
  unfolding read_varlong Reader.read_varlong read_varuint Reader.read_varuint
  Runs-read_varlong = search (run_rules, Runs-varuint_loop)

  Runs-read_prefix : (z : ℤ) → Runs serve (read_prefix a z) (Reader.read_prefix r z)
  unfolding read_prefix Reader.read_prefix
  Runs-read_prefix (pos n) = search run_rules
  Runs-read_prefix (negsuc n) = search run_rules

  pub Runs-read_bytearray : Runs serve (read_bytearray a) (Reader.read_bytearray r)
  unfolding read_bytearray Reader.read_bytearray
  Runs-read_bytearray = search (run_rules, Runs-read_varint, Runs-read_prefix, h.reads)

  Runs-ascii_loop : (k : ℕ) (bs : Bytes) → Runs serve (ascii_loop a k bs) (Reader.ascii_loop r k bs)
  unfolding ascii_loop Reader.ascii_loop
  Runs-ascii_loop zero bs = search run_rules
  Runs-ascii_loop (suc k) bs =
      search (run_rules, h.reads, λ (b : Bytes). Runs-ascii_loop k (bs ++ b))

  pub Runs-read_ascii : (k : ℕ) → Runs serve (read_ascii a k) (Reader.read_ascii r k)
  unfolding read_ascii Reader.read_ascii
  Runs-read_ascii k = Runs-ascii_loop k _

  pub Runs-read_utf : Runs serve (read_utf a) (Reader.read_utf r)
  unfolding read_utf Reader.read_utf
  Runs-read_utf = search (run_rules, Runs-read_varint, Runs-read_prefix, h.reads) depth 9

  pub Runs-read_optional :
      {A : Type 0} (t : Task Op Answer A) (m : Exec S A)
      → Runs serve t m
      → Runs serve (read_optional a t) (Reader.read_optional r m)
  unfolding read_optional Reader.read_optional
  Runs-read_optional t m k =
      Runs-bind _ _ _ _ Runs-read_bool
        (λ b. Runs-if b _ _ _ _ (Runs-bind _ _ _ _ k (λ x. Runs-pure _)) (Runs-pure _))
