-- ===== src/Async/Writer/Runs.antt =====
-- mcstatus/_protocol/io/base_io.py: the methods of an asynchronous writer, and those of the synchronous one.
use mcstatus_rust.Prelude.{ℕ, zero, suc, ◌/◌, ◌%◌, ◌+◌, ◌==◌, Bool, Option, none, some}
use mcstatus_rust.Prelude.Int.{ℤ, pos, negsuc}
use mcstatus_rust.Prelude.Exec.{Exec}
use mcstatus_rust.Async.Task.{Task, Runs, Runs-if, Runs-bind, run_rules}
use mcstatus_rust.Io.Text.{Str, Bytes}
use mcstatus_rust.Io.Struct.{IntFormat, ubyte}
use mcstatus_rust.Io.Writer
use mcstatus_rust.Io.Writer.{Writer}
use mcstatus_rust.Async.Writer.{
  AsyncWriter, write_value, write_bool, varuint_loop, write_varuint, write_varint, write_varlong,
  write_bytearray, write_ascii, write_utf, write_optional,
}

module _ {S Op : Type 0} {Answer : Op → Type 0} where
  -- The tasks of `a` do what `w` does.
  pub record IsServed (serve : (op : Op) → Exec S (Answer op)) (a : AsyncWriter Op Answer)
      (w : Writer S) : Type 0 where
    pub writes : (bs : Bytes) → Runs serve (a.write bs) (w.write bs)

module _ {S Op : Type 0} {Answer : Op → Type 0} {serve : (op : Op) → Exec S (Answer op)}
    {a : AsyncWriter Op Answer} {w : Writer S} (h : IsServed serve a w) where
  pub Runs-write_value :
      (fmt : IntFormat) (z : ℤ) → Runs serve (write_value a fmt z) (Writer.write_value w fmt z)
  unfolding write_value Writer.write_value
  Runs-write_value fmt z = search (run_rules, h.writes)

  Runs-write_bool : (b : Bool) → Runs serve (write_bool a b) (Writer.write_bool w b)
  unfolding write_bool Writer.write_bool
  Runs-write_bool b = h.writes _

  Runs-varuint_loop : (k n : ℕ) → Runs serve (varuint_loop a k n) (Writer.varuint_loop w k n)
  unfolding varuint_loop Writer.varuint_loop
  Runs-varuint_loop zero n = search run_rules
  Runs-varuint_loop (suc k) n = Runs-if (n / 128 == 0) _ _ _ _ (Runs-write_value ubyte (pos n)) (
      Runs-bind _ _ _ _ (Runs-write_value ubyte (pos (n % 128 + 128)))
        (λ _. Runs-varuint_loop k (n / 128)))

  Runs-write_varuint :
      (z : ℤ) (m : ℕ) → Runs serve (write_varuint a z m) (Writer.write_varuint w z m)
  unfolding write_varuint Writer.write_varuint
  Runs-write_varuint (pos n) m = search (run_rules, Runs-varuint_loop)
  Runs-write_varuint (negsuc n) m = search run_rules

  pub Runs-write_varint : (z : ℤ) → Runs serve (write_varint a z) (Writer.write_varint w z)
  unfolding write_varint Writer.write_varint
  Runs-write_varint z = search (run_rules, Runs-write_varuint)

  pub Runs-write_varlong : (z : ℤ) → Runs serve (write_varlong a z) (Writer.write_varlong w z)
  unfolding write_varlong Writer.write_varlong
  Runs-write_varlong z = search (run_rules, Runs-write_varuint)

  pub Runs-write_bytearray :
      (bs : Bytes) → Runs serve (write_bytearray a bs) (Writer.write_bytearray w bs)
  unfolding write_bytearray Writer.write_bytearray
  Runs-write_bytearray bs = search (run_rules, Runs-write_varint, h.writes)

  pub Runs-write_ascii : (s : Str) → Runs serve (write_ascii a s) (Writer.write_ascii w s)
  unfolding write_ascii Writer.write_ascii
  Runs-write_ascii s = search (run_rules, h.writes)

  pub Runs-write_utf : (s : Str) → Runs serve (write_utf a s) (Writer.write_utf w s)
  unfolding write_utf Writer.write_utf
  Runs-write_utf s = search (run_rules, Runs-write_varint, h.writes)

  pub Runs-write_optional :
      {A R : Type 0} (o : Option A) (f : A → Task Op Answer R) (g : A → Exec S R)
      → ((x : A) → Runs serve (f x) (g x))
      → Runs serve (write_optional a o f) (Writer.write_optional w o g)
  unfolding write_optional Writer.write_optional
  Runs-write_optional none f g k = search (run_rules, Runs-write_bool)
  Runs-write_optional (some x) f g k = search (run_rules, Runs-write_bool, k)
