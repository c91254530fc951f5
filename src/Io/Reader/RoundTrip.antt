-- ===== src/Io/Reader/RoundTrip.antt =====
-- mcstatus/_protocol/io/base_io.py: the methods of `BaseSyncWriter` and `BaseSyncReader` together.
use mcstatus_rust.Prelude.{
  ℕ, zero, suc, ◌^◌, ◌≤◌, ◌<◌, ◌≡◌, refl, ap, ◌∙◌, [], ◌∷◌, ◌++◌, arith, ◌==◌, lt→ltb, not_ltb,
  false, length, append_assoc, append-nil, All, length-append, take-append_length,
  drop-append_length,
}
use mcstatus_rust.Prelude.Int.{ℤ, pos}
use mcstatus_rust.Prelude.Exec.{Exec, ok, bind_ok, lift_ok, ◌>>=◌, ◌>>◌, lift}
use mcstatus_rust.Io.Text.{Str, Bytes, utf8_encode, latin1_encode}
use mcstatus_rust.Io.Text.Utf8.{IsCodePoint, utf8_decode-encode, length-utf8_encode}
use mcstatus_rust.Io.Twos.RoundTrip.{InRange, from-to_twos}
use mcstatus_rust.Io.Struct.{IntFormat, pack, calcsize, standard_size}
use mcstatus_rust.Io.Struct.RoundTrip.{unpack-pack, length-pack}
use mcstatus_rust.Io.Writer.{
  write_value, write_varint, write_varlong, write_bytearray, write_utf, write_ascii,
}
use mcstatus_rust.Io.Writer.Encode.{groups, sink, write_sink, write_varuint-groups}
use mcstatus_rust.Io.Reader.{
  read_value, read_varint, read_varlong, read_bytearray, read_prefix, read_utf, read_ascii,
  ascii_loop, ends_null, but_last,
}
use mcstatus_rust.Io.Reader.Stream.{stream, read_stream}
use mcstatus_rust.Io.Reader.Varint.{read_varuint-groups}

-- `m` adds some bytes to the output, from which `p` reads `a` back, whatever follows them.
pub record Carries {A : Type 0} (m : Exec Bytes (Unit {0})) (p : Exec Bytes A) (a : A)
    : Type 0 where
  pub wire : Bytes
  pub writes : (out : Bytes) → m out ≡ (ok tt, out ++ wire)
  pub reads : (rest : Bytes) → p (wire ++ rest) ≡ (ok a, rest)

pub read_exactly : (xs ys : Bytes) → read_stream (length xs) (xs ++ ys) ≡ (ok xs, ys)
unfolding read_stream
read_exactly xs ys = rw (
  not_ltb (length (xs ++ ys)) (length xs) (omega (arith, length-append xs ys)),
  take-append_length xs ys,
  drop-append_length xs ys,
)

-- A value that `pack` accepts in an integer format is written and read back, whatever follows it, if
-- `calcsize` gives the size that the format has on the wire.
pub value-Carries :
    (fmt : IntFormat) (z : ℤ) {raw : Bytes}
    → pack fmt z ≡ ok raw
    → calcsize fmt ≡ standard_size fmt
    → Carries (write_value sink fmt z) (read_value stream fmt) z
unfolding write_value read_value ◌>>=◌ write_sink
value-Carries fmt z {raw} h size = record {
  wire = raw;
  writes = λ out. rw h;
  reads = λ rest.
      rw (size, ← length-pack fmt z raw h, read_exactly raw rest)
        (ap (λ r. (r, rest)) (unpack-pack fmt z raw h));
}

pub varint-Carries : (z : ℤ) → InRange 31 z → Carries (write_varint sink z) (read_varint stream) z
unfolding write_varint read_varint ◌>>=◌
varint-Carries z h =
    let (n, to, fits, from) = from-to_twos 31 z h in
    record {
      wire = groups 32 n;
      writes = λ out. rw to (write_varuint-groups n 32 out fits);
      reads = λ rest.
          rw (read_varuint-groups 32 4 n rest fits refl (omega arith) (omega arith))
            (ap (λ r. (r, rest)) from);
    }

-- The same of 64 bits.
varlong-Carries : (z : ℤ) → InRange 63 z → Carries (write_varlong sink z) (read_varlong stream) z
unfolding write_varlong read_varlong ◌>>=◌
varlong-Carries z h =
    let (n, to, fits, from) = from-to_twos 63 z h in
    record {
      wire = groups 64 n;
      writes = λ out. rw to (write_varuint-groups n 64 out fits);
      reads = λ rest.
          rw (read_varuint-groups 64 9 n rest fits refl (omega arith) (omega arith))
            (ap (λ r. (r, rest)) from);
    }

-- A signed integer of 32 bits is written as a varint, and one of 64 bits as a varlong, and read back,
-- whatever follows it.
pub varint-varlong_Carries :
    (x y : ℤ)
    → InRange 31 x
    → InRange 63 y
    → Carries (write_varint sink x) (read_varint stream) x
      × Carries (write_varlong sink y) (read_varlong stream) y
varint-varlong_Carries x y h k = (varint-Carries x h, varlong-Carries y k)

-- A prefix written as a varint, and what follows it.
module _ (raw : Bytes) (small : length raw < 2 ^ 31) where
  prefix : Carries (write_varint sink (pos (length raw))) (read_varint stream) (pos (length raw))
  prefix = varint-Carries (pos (length raw)) small

  prefix_writes :
      (out : Bytes)
      → (write_varint sink (pos (length raw)) >> write_sink raw) out
        ≡ (ok tt, out ++ prefix.wire ++ raw)
  prefix_writes out =
      bind_ok (write_varint sink (pos (length raw))) _ out (prefix.writes out)
      ∙ unfold write_sink in refl

  prefix_reads :
      {A : Type 0} (k : ℤ → Exec Bytes A) (rest : Bytes)
      → (read_varint stream >>= k) ((prefix.wire ++ raw) ++ rest)
        ≡ k (pos (length raw)) (raw ++ rest)
  prefix_reads k rest =
      rw append_assoc
        (bind_ok (read_varint stream) k (prefix.wire ++ (raw ++ rest)) (prefix.reads (raw ++ rest)))

  -- Fewer than 2 ^ 31 bytes are written behind their length and read back, whatever follows them.
  pub bytearray-Carries : Carries (write_bytearray sink raw) (read_bytearray stream) raw
  unfolding write_bytearray read_bytearray read_prefix
  bytearray-Carries = record {
    wire = prefix.wire ++ raw;
    writes = λ out.
        prefix_writes out ∙ ap (λ (t : Bytes). (ok tt, t)) (append_assoc out prefix.wire raw);
    reads = λ rest. prefix_reads _ rest ∙ unfold ◌>>=◌ in read_exactly raw rest;
  }

-- A text of 32767 characters at most, which UTF-8 encodes, is written by `write_utf` and read back by
-- `read_utf`, whatever follows it.
pub utf-Carries :
    (s : Str) (raw : Bytes)
    → All IsCodePoint s
    → utf8_encode s ≡ ok raw
    → length s ≤ 32767
    → Carries (write_utf sink s) (read_utf stream) s
unfolding write_utf read_utf read_prefix
utf-Carries s raw points e short =
    let fits : length raw ≤ 131068 = omega (arith, length-utf8_encode s raw e) in
    record {
      wire = (prefix raw (omega arith)).wire ++ raw;
      writes = λ out. rw (not_ltb 32767 (length s) short) (
          bind_ok (lift (utf8_encode s)) _ out (lift_ok (utf8_encode s) out e)
          ∙ prefix_writes raw (omega arith) out
          ∙ ap (λ (t : Bytes). (ok tt, t)) (append_assoc out (prefix raw (omega arith)).wire raw));
      reads = λ rest.
          prefix_reads raw (omega arith) _ rest
          ∙ unfold ◌>>=◌ in
            rw (
              not_ltb 131068 (length raw) fits,
              read_exactly raw rest,
              utf8_decode-encode s raw points e,
              not_ltb 32767 (length s) short,
            );
    }

-- A text of ISO-8859-1 with no NUL.
abbrev pub IsAsciiText : Str → Type 0
IsAsciiText s = All (λ c. (0 < c) × (c < 256)) s

latin1_encode-eq : (s : Str) → IsAsciiText s → latin1_encode s ≡ ok s
unfolding latin1_encode
latin1_encode-eq [] h = refl
latin1_encode-eq (c ∷ s) (hc, hs) = rw (latin1_encode-eq s hs, lt→ltb c 256 hc.1)

module _ (c : ℕ) where
  ends_null-snoc : (bs : Bytes) → ends_null (bs ++ c ∷ []) ≡ (c == 0)
  unfolding ends_null
  ends_null-snoc [] = refl
  ends_null-snoc (b ∷ []) = refl
  ends_null-snoc (b ∷ d ∷ bs) = ends_null-snoc (d ∷ bs)

  but_last-snoc : (bs : Bytes) → but_last (bs ++ c ∷ []) ≡ bs
  unfolding but_last
  but_last-snoc [] = refl
  but_last-snoc (b ∷ []) = refl
  but_last-snoc (b ∷ d ∷ bs) = ap (◌∷◌ b) (but_last-snoc (d ∷ bs))

-- The loop with `done` read and the text and its NUL to come.
ascii_loop-text :
    (k : ℕ) (s : Str) (done rest : Bytes)
    → IsAsciiText s
    → length s < k
    → ascii_loop stream k done (s ++ 0 ∷ rest) ≡ (ok (done ++ s), rest)
unfolding ascii_loop
ascii_loop-text zero s done rest h lt = absurd (omega arith)
ascii_loop-text (suc k) [] done rest h lt =
    bind_ok (read_stream 1) _ (0 ∷ rest) (read_exactly (0 ∷ []) rest)
    ∙ unfold ◌>>=◌ in rw (ends_null-snoc 0 done, but_last-snoc 0 done, append-nil)
ascii_loop-text (suc k) (c ∷ s) done rest (hc, hs) lt =
    let more : (c == 0) ≡ false = ground arith in
    bind_ok (read_stream 1) _ (c ∷ (s ++ 0 ∷ rest)) (read_exactly (c ∷ []) (s ++ 0 ∷ rest))
    ∙ rw (ends_null-snoc c done, more)
        (ascii_loop-text k s (done ++ c ∷ []) rest hs (omega arith)
          ∙ ap (λ (t : Bytes). (ok t, rest)) (append_assoc done (c ∷ []) s))

-- A text of Latin-1 without a null is written with a null behind it and read back, in any number of
-- rounds above its length.
pub ascii-Carries :
    (s : Str) (rounds : ℕ)
    → IsAsciiText s
    → length s < rounds
    → Carries (write_ascii sink s) (read_ascii stream rounds) s
unfolding write_ascii read_ascii ◌>>=◌ write_sink
ascii-Carries s rounds h lt = record {
  wire = s ++ 0 ∷ [];
  writes = λ out.
      rw (latin1_encode-eq s h) (ap (λ (t : Bytes). (ok tt, t)) (append_assoc out s (0 ∷ [])));
  reads = λ rest. rw append_assoc (ascii_loop-text rounds s [] rest h lt);
}
