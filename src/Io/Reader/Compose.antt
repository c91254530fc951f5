-- ===== src/Io/Reader/Compose.antt =====
-- Round trips of packets: of one field after another.
use mcstatus_rust.Prelude.{
  ◌≤◌, length, All, ◌≡◌, sym, append-nil, refl, ap, ◌∙◌, Bool, true, false, [], ◌∷◌, ◌++◌,
  append_assoc,
}
use mcstatus_rust.Prelude.Exec.{Exec, ok, pure, ◌>>=◌, ◌>>◌}
use mcstatus_rust.Io.Text.{Bytes, Str, utf8_encode}
use mcstatus_rust.Io.Text.Utf8.{IsCodePoint}
use mcstatus_rust.Io.Struct.{pack_bool, unpack_bool}
use mcstatus_rust.Io.Writer.{write_bool, write_utf}
use mcstatus_rust.Io.Writer.Encode.{sink, write_sink}
use mcstatus_rust.Io.Reader.{read_bool, read_utf}
use mcstatus_rust.Io.Reader.Stream.{stream}
use mcstatus_rust.Io.Reader.RoundTrip.{Carries, read_exactly, utf-Carries}

pub bind-Carries :
    {A B : Type 0} (m n : Exec Bytes (Unit {0})) (p : Exec Bytes A) (q : A → Exec Bytes B) {a : A}
    {b : B}
    → Carries m p a
    → Carries n (q a) b
    → Carries (m >> n) (p >>= q) b
unfolding ◌>>=◌
bind-Carries m n p q h k = record {
  wire = h.wire ++ k.wire;
  writes = λ out.
      rw (h.writes out, k.writes (out ++ h.wire))
        (ap (λ x. (ok tt, x)) (append_assoc out h.wire k.wire));
  reads = λ rest.
      ap (p >>= q) (append_assoc h.wire k.wire rest) ∙ rw (h.reads (k.wire ++ rest)) (k.reads rest);
}

pub map-Carries :
    {A B : Type 0} (m : Exec Bytes (Unit {0})) (p : Exec Bytes A) (f : A → B) {a : A}
    → Carries m p a
    → Carries m (p >>= λ x. pure (f x)) (f a)
unfolding ◌>>=◌
map-Carries m p f h = record {
  wire = h.wire;
  writes = h.writes;
  reads = λ rest. rw (h.reads rest) refl;
}

-- A field that is not on the wire.
pub pure-Carries : {A : Type 0} (a : A) → Carries (pure tt) (pure a) a
unfolding ◌>>=◌
pure-Carries a = record {
  wire = [];
  writes = λ out. ap (λ x. (ok tt, x)) (sym (append-nil out));
  reads = λ rest. refl;
}

pub bool-Carries : (b : Bool) → Carries (write_bool sink b) (read_bool stream) b
unfolding write_bool read_bool write_sink ◌>>=◌ pack_bool unpack_bool
bool-Carries true = record {
  wire = 1 ∷ [];
  writes = λ out. refl;
  reads = λ rest. rw (read_exactly (1 ∷ []) rest) refl;
}
bool-Carries false = record {
  wire = 0 ∷ [];
  writes = λ out. refl;
  reads = λ rest. rw (read_exactly (0 ∷ []) rest) refl;
}

-- A text that a string of the wire format can hold.
pub record IsWireText (s : Str) : Type 0 where
  pub code_points : All IsCodePoint s
  pub encoded : Bytes
  pub encodes : utf8_encode s ≡ ok encoded
  pub short_enough : length s ≤ 32767

pub text-Carries : (s : Str) → IsWireText s → Carries (write_utf sink s) (read_utf stream) s
text-Carries s h = utf-Carries s h.encoded h.code_points h.encodes h.short_enough
