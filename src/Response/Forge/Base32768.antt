-- ===== src/Response/Forge/Base32768.antt =====
-- mcstatus/responses/forge.py: `_decode_optimized` as a change of the base of a number.
use mcstatus_rust.Prelude.{
  ℕ, zero, suc, ◌+◌, ◌-◌, ◌*◌, ◌/◌, ◌%◌, ◌^◌, ◌≤◌, ◌<◌, ◌≡◌, refl, ap, ◌∙◌, sym, ◌⊎◌, false, List,
  [], ◌∷◌, ◌++◌, length, ltb, ltb→lt, lt→ltb, not_ltb, ◌==◌, arith, All, append_assoc, append-nil,
  Bool-cases, inl, inr,
}
use mcstatus_rust.Response.Forge.Characters.{fresh, read_short}
use mcstatus_rust.Response.Forge.Powers.{pow_15, pow_8, fits_more, same_more}
use native.Mathlib.Nat.{mul_assoc, pow-le-pow_right}
use mcstatus_rust.Prelude.Bits.{bit_or_disjoint}
use mcstatus_rust.Prelude.Int.{pos}
use mcstatus_rust.Prelude.Exec.{Result, ok, err, next, pure, ◌>>=◌}
use mcstatus_rust.Io.Text.{Str, Bytes}
use mcstatus_rust.Io.Buffer.{init}
use mcstatus_rust.Response.Forge.Optimized.{
  StringBuffer, remaining, or_size, read_optimized_size, low15, top_up, unpack_loop, unpack_size,
  read_optimized_buffer, decode_optimized,
}

-- The number with these digits, lowest first.
abbrev pub from_digits : ℕ → List ℕ → ℕ
from_digits base [] = 0
from_digits base (d ∷ ds) = d + base * from_digits base ds

abbrev pub IsDigits15 : Str → Type 0
IsDigits15 = All (λ c. c < 2 ^ 15)

-- What is left of the number: the buffered bits and the characters that follow.
abbrev pub left : ℕ → ℕ → Str → ℕ
left value bits text = value + 2 ^ bits * from_digits (2 ^ 15) text

-- The lowest digits of a number.
abbrev pub to_digits : ℕ → ℕ → ℕ → List ℕ
to_digits base zero v = []
to_digits base (suc k) v = v % base ∷ to_digits base k (v / base)

-- What a round finds after `top_up`: eight bits, or a text that is used up.
record Topped (value bits : ℕ) (text : Str) : Type 0 where
  value' : ℕ
  bits' : ℕ
  rest : Str
  run : top_up value bits (fresh text) ≡ (ok (value', bits'), fresh rest)
  fits : value' < 2 ^ bits'
  digits : IsDigits15 rest
  same_left : left value' bits' rest ≡ left value bits text
  enough : (8 ≤ bits') ⊎ (rest ≡ [])

run_full :
    (value bits : ℕ) (s : StringBuffer) → 8 ≤ bits → top_up value bits s ≡ (ok (value, bits), s)
unfolding top_up
run_full value bits s h = rw (not_ltb bits 8 h) refl

run_end : (value bits : ℕ) → bits < 8 → top_up value bits (fresh []) ≡ (ok (value, bits), fresh [])
unfolding top_up remaining
run_end value bits h = rw (lt→ltb bits 8 h) refl

run_more :
    (value bits c : ℕ) (text : Str)
    → bits < 8
    → c < 2 ^ 15
    → value < 2 ^ bits
    → top_up value bits (fresh (c ∷ text)) ≡ (ok (value + c * 2 ^ bits, bits + 15), fresh text)
unfolding top_up remaining low15 ◌>>=◌
run_more value bits c text h k l =
    let e : c % 2 ^ 15 ≡ c = omega arith in
    let z : (suc (length text) + 0 == 0) ≡ false = ground arith in
    rw (lt→ltb bits 8 h, z, read_short c text k, e, bit_or_disjoint bits value c l) refl

Topped-more :
    (value bits c : ℕ) (text : Str)
    → bits < 8
    → value < 2 ^ bits
    → IsDigits15 (c ∷ text)
    → Topped value bits (c ∷ text)
Topped-more value bits c text h fits hs = record {
  value' = value + c * 2 ^ bits;
  bits' = bits + 15;
  rest = text;
  run = run_more value bits c text h hs.0 fits;
  fits = fits_more value (2 ^ bits) c (2 ^ (bits + 15)) fits hs.0 (pow_15 bits);
  digits = hs.1;
  same_left =
      same_more value (2 ^ bits) c (from_digits (2 ^ 15) text) (2 ^ (bits + 15)) (pow_15 bits);
  enough = inl (omega arith);
}

Topped-low :
    (value bits : ℕ) (text : Str)
    → bits < 8
    → value < 2 ^ bits
    → IsDigits15 text
    → Topped value bits text
Topped-low value bits [] h fits hs = record {
  value' = value;
  bits' = bits;
  rest = [];
  run = run_end value bits h;
  fits = fits;
  digits = hs;
  same_left = refl;
  enough = inr refl;
}
Topped-low value bits (c ∷ text) h fits hs = Topped-more value bits c text h fits hs

topped : (value bits : ℕ) (text : Str) → value < 2 ^ bits → IsDigits15 text → Topped value bits text
topped value bits text fits hs = elim (Bool-cases (ltb bits 8)) [
  | inl h ↦ Topped-low value bits text (ltb→lt bits 8 h) fits hs
  | inr h ↦
      let l : 8 ≤ bits = ground arith in
      record {
        value' = value;
        bits' = bits;
        rest = text;
        run = run_full value bits (fresh text) l;
        fits = fits;
        digits = hs;
        same_left = refl;
        enough = inl l;
      }
]

-- One round on the number that is left.
round_digit :
    (v b : ℕ) (rest : Str) → v < 2 ^ b → (8 ≤ b) ⊎ (rest ≡ []) → v % 256 ≡ left v b rest % 256
round_digit v b rest fits (inl h) = omega (
  arith,
  ap (λ (t : ℕ). t * from_digits (2 ^ 15) rest) (pow_8 b h),
  mul_assoc 256 (2 ^ (b - 8)) (from_digits (2 ^ 15) rest),
)
round_digit v b rest fits (inr h) = rw h (omega arith)

round_rest :
    (v b : ℕ) (rest : Str)
    → v < 2 ^ b
    → (8 ≤ b) ⊎ (rest ≡ [])
    → left (v / 256) (b - 8) rest ≡ left v b rest / 256
round_rest v b rest fits (inl h) = omega (
  arith,
  ap (λ (t : ℕ). t * from_digits (2 ^ 15) rest) (pow_8 b h),
  mul_assoc 256 (2 ^ (b - 8)) (from_digits (2 ^ 15) rest),
)
round_rest v b rest fits (inr h) = rw h (omega arith)

round_fits : (v b : ℕ) → v < 2 ^ b → v / 256 < 2 ^ (b - 8)
round_fits v b fits = elim (Bool-cases (ltb b 8)) [
  | inl h ↦
      let l : b < 8 = ltb→lt b 8 h in
      let e : b - 8 ≡ 0 = omega arith in
      let two : 0 < 2 = omega arith in
      let le : b ≤ 7 = omega arith in rw e (omega (arith, pow-le-pow_right two le))
  | inr h ↦ let l : 8 ≤ b = ground arith in omega (arith, pow_8 b l)
]

unpack_loop-digits :
    (k value bits : ℕ) (out : Bytes) (text : Str)
    → value < 2 ^ bits
    → IsDigits15 text
    → (unpack_loop k value bits out (fresh text)).0
      ≡ ok (out ++ to_digits 256 k (left value bits text))
unfolding unpack_loop ◌>>=◌
unpack_loop-digits zero value bits out text fits hs = ap ok (sym (append-nil out))
unpack_loop-digits (suc k) value bits out text fits hs =
    let t = topped value bits text fits hs in
    let d =
      round_digit t.value' t.bits' t.rest t.fits t.enough ∙ ap (λ (x : ℕ). x % 256) t.same_left in
    let q =
      round_rest t.value' t.bits' t.rest t.fits t.enough ∙ ap (λ (x : ℕ). x / 256) t.same_left in
    let tail = to_digits 256 k (left value bits text / 256) in
    ap (λ p. (next p (λ x. unpack_loop k (x.0 / 2 ^ 8) (x.1 - 8) (out ++ (x.0 % 2 ^ 8) ∷ []))).0)
      t.run
    ∙ unpack_loop-digits k (t.value' / 256) (t.bits' - 8) (out ++ (t.value' % 256) ∷ []) t.rest
        (round_fits t.value' t.bits' t.fits) t.digits
    ∙ ap (λ x. ok ((out ++ (t.value' % 256) ∷ []) ++ to_digits 256 k x)) q
    ∙ ap (λ x. ok ((out ++ x ∷ []) ++ tail)) d
    ∙ ap ok (append_assoc out _ tail)

size_run :
    (low high : ℕ) (payload : Str)
    → low < 2 ^ 15
    → high < 2 ^ 15
    → read_optimized_size (fresh (low ∷ high ∷ payload))
      ≡ (ok (pos (low + high * 2 ^ 15)), fresh payload)
unfolding read_optimized_size or_size ◌>>=◌
size_run low high payload h k =
    rw (read_short low (high ∷ payload) h, read_short high payload k) refl

next-init :
    (p : Result Bytes × StringBuffer) (bs : Bytes)
    → p.0 ≡ ok bs
    → (next p (λ raw. pure (init raw))).0 ≡ ok (init bs)
unfolding ◌>>=◌
next-init (ok a, s) bs h = cc
next-init (err e, s) bs h = cc

-- For a text whose characters are below 2 ^ 15, the first two, lowest first, are the size, and the
-- others, lowest first, are the digits in base 2 ^ 15 of a number; the buffer holds the size lowest
-- digits of that number in base 2 ^ 8, lowest first. It is not an error if the text is too short.
pub decode_optimized-digits :
    (low high : ℕ) (payload : Str)
    → IsDigits15 (low ∷ high ∷ payload)
    → decode_optimized (low ∷ high ∷ payload)
      ≡ ok (init (to_digits (2 ^ 8) (low + high * 2 ^ 15) (from_digits (2 ^ 15) payload)))
unfolding decode_optimized read_optimized_buffer unpack_size ◌>>=◌
decode_optimized-digits low high payload h =
    let start : 0 < 2 ^ 0 = omega arith in
    let zero_left : left 0 0 payload ≡ from_digits (2 ^ 15) payload = omega arith in
    let n = low + high * 2 ^ 15 in
    ap (λ p. (next p (λ size. unpack_size size >>= λ raw. pure (init raw))).0)
      (size_run low high payload h.0 h.1.0)
    ∙ (next-init (unpack_loop n 0 0 [] (fresh payload))
        (to_digits (2 ^ 8) n (from_digits (2 ^ 15) payload))
        (unpack_loop-digits n 0 0 [] payload start h.1.1
          ∙ ap (λ x. ok (to_digits 256 n x)) zero_left))
