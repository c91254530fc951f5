-- ===== src/Tests/Wire.antt =====
-- The wire formats at concrete inputs.
use mcstatus_rust.Prelude.{
  ℕ, none, codes, ◌≢◌, ◌<◌, ◌≤◌, ◌^◌, ◌≡◌, refl, [], ◌∷◌, ◌++◌, arith, ◌⊎◌, inl, inr, Bool, length,
}
use mcstatus_rust.Prelude.Int.{ℤ, pos, negsuc}
use mcstatus_rust.Prelude.Exec.{Exec, ◌>>=◌, ok, err, struct_error, out_of_rounds}
use mcstatus_rust.Io.Text.{Bytes, utf8_encode, utf8_char, utf8_decode}
use mcstatus_rust.Io.Text.Utf8.{utf8_decode-encode}
use mcstatus_rust.Io.Twos.{to_twos_complement, from_twos_complement}
use mcstatus_rust.Io.Twos.RoundTrip.{InRange, twos_inverse}
use mcstatus_rust.Io.Struct.{pack, calcsize, standard_size, is_signed, to_be, short, long, ulong}
use mcstatus_rust.Io.Writer.{write_value, write_varint, write_varlong, write_ascii, write_utf}
use mcstatus_rust.Io.Writer.Encode.{sink}
use mcstatus_rust.Io.Reader.{
  ends_null, but_last, read_value, read_varint, read_varlong, read_ascii, read_utf,
}
use mcstatus_rust.Io.Reader.Stream.{stream}
use mcstatus_rust.Io.Reader.Refine.{IsReader}
use mcstatus_rust.Io.Reader.RoundTrip.{
  Carries, value-Carries, varint-varlong_Carries, utf-Carries, ascii-Carries,
}
use mcstatus_rust.Io.Reader.Long.{read_long_fails}
use mcstatus_rust.Io.Buffer.{Buffer, init, write, read, clear, reset, flush}
use mcstatus_rust.Io.Buffer.Laws.{IsValid, buffer_invariant}
use mcstatus_rust.Client.Query.{parse_answer, read_challenge}
use mcstatus_rust.Client.Query.Rounds.{parse_answer-ends}
use mcstatus_rust.Io.Connection.{tcp_reader}
use mcstatus_rust.Io.Connection.Laws.{IsSocket, tcp-IsReader}

utf8_decode-encode_example : utf8_decode (0xC2 ∷ 0xA7 ∷ b'a' ∷ []) ≡ ok (0xA7 ∷ b'a' ∷ [])
unfolding utf8_encode utf8_char
utf8_decode-encode_example =
    utf8_decode-encode (0xA7 ∷ b'a' ∷ []) (0xC2 ∷ 0xA7 ∷ b'a' ∷ []) (omega arith, (omega arith, tt))
      refl

short_size : calcsize short ≡ standard_size short
unfolding calcsize standard_size
short_size = refl

value-Carries_example :
    Carries (write_value sink short (negsuc 1)) (read_value stream short) (negsuc 1)
unfolding pack is_signed standard_size to_be
value-Carries_example = value-Carries short (negsuc 1) {raw = 0xFF ∷ 0xFE ∷ []} refl short_size

utf-Carries_example :
    Carries (write_utf sink (0xA7 ∷ b'a' ∷ [])) (read_utf stream) (0xA7 ∷ b'a' ∷ [])
unfolding utf8_encode utf8_char
utf-Carries_example =
    utf-Carries (0xA7 ∷ b'a' ∷ []) (0xC2 ∷ 0xA7 ∷ b'a' ∷ []) (omega arith, (omega arith, tt)) refl
      (omega arith)

ascii-Carries_example :
    Carries (write_ascii sink (b'o' ∷ b'k' ∷ [])) (read_ascii stream 3) (b'o' ∷ b'k' ∷ [])
ascii-Carries_example =
    ascii-Carries (b'o' ∷ b'k' ∷ []) 3
      ((omega arith, omega arith), ((omega arith, omega arith), tt)) (omega arith)

abbrev eight : Bytes
eight = 0 ∷ 0 ∷ 0 ∷ 0 ∷ 0 ∷ 0 ∷ 0 ∷ 1 ∷ []

read_long_fails_example :
    ((read_value stream long eight).0 ≡ err struct_error)
    × ((read_value stream ulong eight).0 ≡ err struct_error)
read_long_fails_example = read_long_fails eight (omega arith)

abbrev half_read : Buffer
half_read = record { content = 1 ∷ 2 ∷ 3 ∷ []; pos = 2 }

buffer_invariant_example :
    ((raw : Bytes) → IsValid (write raw half_read).1)
    × ((n : ℤ) → IsValid (read n half_read).1)
    × ((only : Bool) → IsValid (clear only half_read))
    × IsValid (reset half_read)
    × IsValid (flush half_read).1
buffer_invariant_example = buffer_invariant half_read (omega arith)

-- A server whose bytes arrive one by one.
abbrev drip : ℕ → Exec Bytes Bytes
drip n [] = (ok [], [])
drip n (b ∷ s) = (ok (b ∷ []), s)

drip_takes :
    (n : ℕ) (s : Bytes)
    → Unit {0}
    → 0 < n
    → (new : Bytes) × (t : Bytes) × (drip n s ≡ (ok new, t))
      × (s ≡ new ++ t)
      × (length new ≤ n)
      × ((0 < length new) ⊎ (s ≡ []))
      × Unit {0}
drip_takes n [] i h = ([], [], refl, refl, omega arith, inr refl, tt)
drip_takes n (b ∷ s) i h = (b ∷ [], s, refl, refl, omega arith, inl (omega arith), tt)

drip-IsSocket : IsSocket (λ s. Unit {0}) (λ s. s) drip
drip-IsSocket = record { takes = drip_takes }

tcp-IsReader_example : IsReader (λ s. Unit {0}) (λ s. s) (tcp_reader drip)
tcp-IsReader_example = tcp-IsReader drip-IsSocket

twos_inverse_example :
    ((w : ℕ) × (to_twos_complement (negsuc 4) 32 ≡ ok w)
      × (w < 2 ^ 32)
      × (from_twos_complement (pos w) 32 ≡ ok (negsuc 4)))
    × ((y : ℤ) × (from_twos_complement (pos 200) 32 ≡ ok y)
        × InRange 31 y
        × (to_twos_complement y 32 ≡ ok 200))
twos_inverse_example = twos_inverse 31 200 (negsuc 4) (omega arith) (omega arith)

varint-varlong_Carries_example :
    Carries (write_varint sink (negsuc 0)) (read_varint stream) (negsuc 0)
    × Carries (write_varlong sink (pos 300)) (read_varlong stream) (pos 300)
varint-varlong_Carries_example =
    varint-varlong_Carries (negsuc 0) (pos 300) (omega arith) (omega arith)

-- Sixteen bytes in front, a name, one field that follows it, nine bytes, and one player.
abbrev skipped : Bytes
skipped = 0 ∷ 0 ∷ 0 ∷ 0 ∷ 0 ∷ 0 ∷ 0 ∷ 0 ∷ []

abbrev answer : Bytes
answer =
    skipped
    ++ skipped
    ++ codes "hostname"
    ++ 0 ∷ 65 ∷ 0 ∷ []
    ++ codes "hostip"
    ++ 0 ∷ 49 ∷ 0 ∷ 0 ∷ 0 ∷ []
    ++ skipped
    ++ 0 ∷ 80 ∷ 0 ∷ 0 ∷ []

answer_parsed :
    (parse_answer (init answer)).0
    ≡ ok ((codes "hostip", codes "1") ∷ (codes "hostname", codes "A") ∷ [], codes "P" ∷ [])
unfolding parse_answer ◌>>=◌ read init read_ascii ends_null but_last
answer_parsed = refl

parse_answer-ends_example :
    ((parse_answer (init answer)).0 ≢ err out_of_rounds)
    × ((read_challenge (λ c. none) (init answer)).0 ≢ err out_of_rounds)
parse_answer-ends_example = parse_answer-ends (λ c. none) (init answer)
