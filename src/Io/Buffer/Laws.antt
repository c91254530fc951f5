-- ===== src/Io/Buffer/Laws.antt =====
-- mcstatus/_protocol/io/buffer.py: the position of a `Buffer`, and what can be read of it.
use mcstatus_rust.Prelude.{
  ℕ, ◌+◌, ◌≤◌, ◌<◌, ◌≡◌, refl, ap, sym, length, take, drop, Bool, false, ltb, ltb→lt, lt→ltb, arith,
  Bool-cases, inl, inr, drop-drop, drop-all, length-append, length-drop,
}
use mcstatus_rust.Prelude.Int.{ℤ, pos, negsuc}
use mcstatus_rust.Prelude.Exec.{ok, err, os_error}
use mcstatus_rust.Io.Text.{Bytes}
use mcstatus_rust.Io.Reader.Stream.{read_stream}
use mcstatus_rust.Io.Reader.Refine.{IsReader}
use mcstatus_rust.Io.Writer.Encode.{write_sink}
use mcstatus_rust.Io.Writer.Refine.{IsWriter}
use mcstatus_rust.Io.Buffer.{
  Buffer, write, read, unread_view, clear, reset, flush, buffer_reader, buffer_writer,
}

abbrev pub IsValid : Buffer → Type 0
IsValid b = b.pos ≤ length b.content

-- Every operation keeps the position within the content.
pub buffer_invariant :
    (b : Buffer)
    → IsValid b
    → ((raw : Bytes) → IsValid (write raw b).1)
      × ((n : ℤ) → IsValid (read n b).1)
      × ((only : Bool) → IsValid (clear only b))
      × IsValid (reset b)
      × IsValid (flush b).1
unfolding write read clear reset flush
buffer_invariant b h = (
  λ raw. omega (arith, length-append b.content raw),
  λ n. read_valid n,
  λ only. omega arith,
  omega arith,
  omega arith,
)
  where
    read_valid : (n : ℤ) → IsValid (read n b).1
    read_valid (pos n) = ground arith
    read_valid (negsuc n) = h

reads_at :
    (n : ℕ) (b : Buffer)
    → IsValid b
    → read_stream n (unread_view b) ≡ ((read (pos n) b).0, unread_view (read (pos n) b).1)
unfolding read unread_view read_stream
reads_at n b h = elim (Bool-cases (ltb (length b.content) (b.pos + n))) [
  | inl short ↦
      let left : length (drop b.pos b.content) < n =
        omega (arith, length-drop b.pos b.content, ltb→lt (length b.content) (b.pos + n) short) in
      rw (short, lt→ltb (length (drop b.pos b.content)) n left)
        (ap (λ (t : Bytes). (err os_error, t))
          (sym (drop-all (length b.content) b.content (omega arith))))
  | inr there ↦
      let left : ltb (length (drop b.pos b.content)) n ≡ false =
        ground (arith, length-drop b.pos b.content) in
      rw (there, left)
        (ap (λ (t : Bytes). (ok (take n (drop b.pos b.content)), t)) (drop-drop n b.pos b.content))
]

-- Reading from a valid buffer is reading from the stream of its unread bytes.
pub buffer-IsReader : IsReader IsValid unread_view buffer_reader
buffer-IsReader = record {
  reads = λ n. record { at = reads_at n; keeps = λ b h. (buffer_invariant b h).1 (pos n) };
}

-- Writing to a buffer adds to its content.
pub buffer-IsWriter : IsWriter IsValid (λ b. b.content) buffer_writer
buffer-IsWriter = record {
  writes = λ raw. record {
    at = λ b h. unfold write write_sink in refl;
    keeps = λ b h. (buffer_invariant b h).0 raw;
  };
}
