-- ===== src/Io/Reader/Varint.antt =====
-- mcstatus/_protocol/io/base_io.py: what `_read_varuint` makes of the bytes of a varint.
use mcstatus_rust.Prelude.{
  ℕ, zero, suc, ◌+◌, ◌-◌, ◌*◌, ◌/◌, ◌%◌, ◌^◌, ◌≤◌, ◌<◌, ◌≡◌, refl, ap, ◌∙◌, ◌∷◌, ◌++◌, arith, ltb,
  ◌==◌, not_ltb, true, false, length, Bool-cases, inl, inr, bit_or,
}
use mcstatus_rust.Prelude.Bits.{bit_or_disjoint}
use mcstatus_rust.Prelude.Int.{pos}
use mcstatus_rust.Prelude.Exec.{ok, bind_ok, ◌>>=◌}
use mcstatus_rust.Io.Text.{Bytes}
use mcstatus_rust.Io.Struct.{ubyte, unpack, calcsize, standard_size, is_signed, from_be}
use mcstatus_rust.Io.Writer.Encode.{groups}
use mcstatus_rust.Io.Reader.{read_value, read_varuint, varuint_loop}
use mcstatus_rust.Io.Reader.Stream.{stream, read_stream}
use native.Mathlib.Nat.{pow-suc, div-add-mod}
use native.Mathlib.Numerals.{towards_suc}

pub read_ubyte : (b : ℕ) (rest : Bytes) → read_value stream ubyte (b ∷ rest) ≡ (ok (pos b), rest)
unfolding read_value read_stream unpack calcsize standard_size is_signed from_be ◌>>=◌
read_ubyte b rest =
    let fits : ltb (suc (length rest)) 1 ≡ false = ground arith in
    let e : b * 1 + 0 ≡ b = omega arith in rw fits (ap (λ (t : ℕ). (ok (pos t), rest)) e)

pow_seven : (i : ℕ) → 2 ^ (7 * suc i) ≡ 128 * 2 ^ (7 * i)
pow_seven i = let e : 7 * suc i ≡ 7 * i + 7 = omega arith in rw e (simp towards_suc (omega arith))

-- One round on the last byte, and on a byte with the top bit set.
module _ (m k i res : ℕ) (rest : Bytes) (low : res < 2 ^ (7 * i)) where
  last_round :
      (b : ℕ)
      → b < 128
      → res + b * 2 ^ (7 * i) < 2 ^ m
      → varuint_loop stream m (suc k) i res (b ∷ rest) ≡ (ok (res + b * 2 ^ (7 * i)), rest)
  unfolding varuint_loop
  last_round b h fits =
      let group : b % 128 ≡ b = omega arith in
      let sum : bit_or res (b * 2 ^ (7 * i)) ≡ res + b * 2 ^ (7 * i) =
        bit_or_disjoint (7 * i) res b low in
      let stop : (b / 128 % 2 == 0) ≡ true = ground arith in
      bind_ok (read_value stream ubyte) _ (b ∷ rest) (read_ubyte b rest)
      ∙ rw (group, sum, not_ltb (2 ^ m - 1) (res + b * 2 ^ (7 * i)) (omega arith), stop)
          (unfold ◌>>=◌ in refl)

  inner_round :
      (g : ℕ)
      → g < 128
      → res + g * 2 ^ (7 * i) < 2 ^ m
      → varuint_loop stream m (suc k) i res ((g + 128) ∷ rest)
        ≡ varuint_loop stream m k (i + 1) (res + g * 2 ^ (7 * i)) rest
  unfolding varuint_loop
  inner_round g h fits =
      let group : (g + 128) % 128 ≡ g = omega arith in
      let sum : bit_or res (g * 2 ^ (7 * i)) ≡ res + g * 2 ^ (7 * i) =
        bit_or_disjoint (7 * i) res g low in
      let go_on : ((g + 128) / 128 % 2 == 0) ≡ false = ground arith in
      bind_ok (read_value stream ubyte) _ ((g + 128) ∷ rest) (read_ubyte (g + 128) rest)
      ∙ rw (group, sum, not_ltb (2 ^ m - 1) (res + g * 2 ^ (7 * i)) (omega arith), go_on)

split_group : (n i : ℕ) → n * 2 ^ (7 * i) ≡ n % 128 * 2 ^ (7 * i) + n / 128 * 2 ^ (7 * suc i)
split_group n i = omega (
  arith,
  ap (λ (t : ℕ). t * 2 ^ (7 * i)) (div-add-mod n 128),
  ap (λ (t : ℕ). n / 128 * t) (pow_seven i),
)

below_next : (r g p : ℕ) → r < p → g < 128 → r + g * p < 128 * p
below_next r g p h k = grind arith

-- `n` is what is still to be read: `j` bounds its groups, and `k` rounds more than one are left.
pub varuint_loop-groups :
    (m j k i res n : ℕ) (rest : Bytes)
    → res < 2 ^ (7 * i)
    → n < 128 ^ suc j
    → j ≤ k
    → res + n * 2 ^ (7 * i) < 2 ^ m
    → varuint_loop stream m (suc k) i res (groups j n ++ rest) ≡ (ok (res + n * 2 ^ (7 * i)), rest)
unfolding groups
varuint_loop-groups m zero k i res n rest low hn hk fits =
    last_round m k i res rest low n (omega arith) fits
varuint_loop-groups m (suc j) zero i res n rest low hn hk fits = absurd (omega arith)
varuint_loop-groups m (suc j) (suc k) i res n rest low hn hk fits =
    elim (Bool-cases (n / 128 == 0)) [
      | inl last ↦ rw last (last_round m (suc k) i res rest low n (ground arith) fits)
      | inr more ↦
          let step : n * 2 ^ (7 * i) ≡ n % 128 * 2 ^ (7 * i) + n / 128 * 2 ^ (7 * suc i) =
            split_group n i in
          let next_low : res + n % 128 * 2 ^ (7 * i) < 2 ^ (7 * suc i) =
            rw pow_seven (below_next res (n % 128) (2 ^ (7 * i)) low (omega arith)) in
          let sum : res + n % 128 * 2 ^ (7 * i) + n / 128 * 2 ^ (7 * suc i)
              ≡ res + n * 2 ^ (7 * i) =
            omega arith in
          let next_i : i + 1 ≡ suc i = omega arith in
          rw more (
            inner_round m (suc k) i res (groups j (n / 128) ++ rest) low (n % 128) (omega arith)
              (omega arith)
            ∙ rw (next_i, ← sum)
                (varuint_loop-groups m j k (suc i) (res + n % 128 * 2 ^ (7 * i)) (n / 128) rest
                  next_low (omega (arith, pow-suc 128 (suc j))) (omega arith) (omega arith)))
    ]

groups-enough : (k j n : ℕ) → n < 128 ^ suc j → j ≤ k → groups k n ≡ groups j n
unfolding groups
groups-enough zero zero n h le = refl
groups-enough zero (suc j) n h le = absurd (omega arith)
groups-enough (suc k) zero n h le = let last : (n / 128 == 0) ≡ true = ground arith in rw last
groups-enough (suc k) (suc j) n h le =
    let tail : groups k (n / 128) ≡ groups j (n / 128) =
      groups-enough k j (n / 128) (omega (arith, pow-suc 128 (suc j))) (omega arith) in
    rw tail

-- `_read_varuint` reads back a number below 2 ^ m from its bytes, if 7 * (j + 1) bits hold m bits.
pub read_varuint-groups :
    (m j n : ℕ) (rest : Bytes)
    → n < 2 ^ m
    → (m + 6) / 7 ≡ suc j
    → j ≤ m
    → n < 128 ^ suc j
    → read_varuint stream m (groups m n ++ rest) ≡ (ok n, rest)
unfolding read_varuint
read_varuint-groups m j n rest h rounds le fits =
    let one : n * 2 ^ (7 * 0) ≡ n = omega arith in
    let all : 0 + n * 2 ^ (7 * 0) ≡ n = omega arith in
    rw (groups-enough m j n fits le, rounds)
      (varuint_loop-groups m j j 0 0 n rest (omega arith) fits (omega arith) (rw all h)
        ∙ ap (λ (t : ℕ). (ok t, rest)) all)
