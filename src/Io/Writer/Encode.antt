-- ===== src/Io/Writer/Encode.antt =====
-- What a writer promises: `write` adds bytes at the end of the output. The bytes of a varint.
use mcstatus_rust.Prelude.{
  ℕ, zero, suc, ◌+◌, ◌-◌, ◌/◌, ◌%◌, ◌^◌, ◌≤◌, ◌<◌, ◌≡◌, ap, ◌∙◌, [], ◌∷◌, ◌++◌, append_assoc, arith,
  ◌==◌, lt→ltb, not_ltb, true, if◌then◌else◌, length, Bool-cases, inl, inr,
}
use mcstatus_rust.Prelude.Int.{pos}
use mcstatus_rust.Prelude.Exec.{Exec, ok, bind_ok, ◌>>=◌}
use mcstatus_rust.Io.Text.{Bytes}
use mcstatus_rust.Io.Struct.{ubyte, pack, standard_size, is_signed, to_be}
use mcstatus_rust.Io.Writer.{Writer, write_value, write_varuint, varuint_loop}
use native.Mathlib.Nat.{pow-suc, pow-le-pow_left}

unfoldable pub write_sink : Bytes → Exec Bytes (Unit {0})
write_sink bs out = (ok tt, out ++ bs)

abbrev pub sink : Writer Bytes
sink = record { write = write_sink }

-- Groups of seven bits, lowest first, with the top bit set on all but the last; `k` groups at most
-- follow the first.
unfoldable pub groups : ℕ → ℕ → Bytes
groups zero n = n ∷ []
groups (suc k) n =
    let more = groups k (n / 128) in if n / 128 == 0 then n ∷ [] else (n % 128 + 128) ∷ more

write_ubyte :
    (b : ℕ) (out : Bytes) → b < 256 → write_value sink ubyte (pos b) out ≡ (ok tt, out ++ b ∷ [])
unfolding write_value write_sink pack standard_size is_signed to_be ◌>>=◌
write_ubyte b out h =
    let e : b / 1 % 256 ≡ b = omega arith in
    rw (lt→ltb b 256 h) (ap (λ (t : ℕ). (ok tt, out ++ t ∷ [])) e)

pub varuint_loop-groups :
    (k n : ℕ) (out : Bytes)
    → n < 128 ^ suc k
    → varuint_loop sink (suc k) n out ≡ (ok tt, out ++ groups k n)
unfolding varuint_loop groups
varuint_loop-groups zero n out h =
    let last : (n / 128 == 0) ≡ true = ground arith in rw last (write_ubyte n out (omega arith))
varuint_loop-groups (suc k) n out h = elim (Bool-cases (n / 128 == 0)) [
  | inl last ↦ rw last (write_ubyte n out (ground arith))
  | inr more ↦ rw more (
      bind_ok (write_value sink ubyte (pos (n % 128 + 128))) _ out
        (write_ubyte (n % 128 + 128) out (omega arith))
      ∙ varuint_loop-groups k (n / 128) (out ++ (n % 128 + 128) ∷ [])
          (omega (arith, pow-suc 128 (suc k)))
      ∙ ap (λ (t : Bytes). (ok tt, t))
          (append_assoc out ((n % 128 + 128) ∷ []) (groups k (n / 128))))
]

pow_wide : (m : ℕ) → 2 ^ m ≤ 128 ^ m
pow_wide m = pow-le-pow_left (omega arith) m

-- A number below 2 ^ max_bits is written as its groups.
pub write_varuint-groups :
    (n max_bits : ℕ) (out : Bytes)
    → n < 2 ^ max_bits
    → write_varuint sink (pos n) max_bits out ≡ (ok tt, out ++ groups max_bits n)
unfolding write_varuint
write_varuint-groups n max_bits out h =
    rw (not_ltb (2 ^ max_bits - 1) n (omega arith))
      (varuint_loop-groups max_bits n out (omega (arith, pow_wide max_bits, pow-suc 128 max_bits)))

-- Each byte of a varint costs seven bits.
pub length-groups : (k j n : ℕ) → n < 128 ^ suc j → length (groups k n) ≤ suc j
unfolding groups
length-groups zero j n h = omega arith
length-groups (suc k) zero n h = ground arith
length-groups (suc k) (suc j) n h =
    ground (arith, length-groups k j (n / 128) (omega (arith, pow-suc 128 (suc j))))
