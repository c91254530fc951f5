-- ===== src/Utils/Deprecation/Release.antt =====
-- mcstatus/_utils/deprecation.py: how the regular expression reads a version of three numbers.
use mcstatus_rust.Prelude.{
  ℕ, zero, suc, ◌≡◌, refl, Bool, true, false, none, List, [], ◌∷◌, ◌++◌, All, map, ◌==◌,
}
use mcstatus_rust.Io.Text.{Str}
use mcstatus_rust.Utils.Deprecation.Pattern.{
  Pattern, ◌>>=◌, each, pure, optional, one, many, many1, star, is_digit,
}

-- The first match of a pattern, and that there are others or none.
abbrev pub First : {A : Type 0} → Pattern A → Str → A → Str → Type 0
First {A} p s a rest = (more : List (A × Str)) × (p s ≡ (a, rest) ∷ more)

module _ {A B : Type 0} where
  pub First-bind :
      (p : Pattern A) (f : A → Pattern B) (s r q : Str) (a : A) (b : B)
      → First p s a r
      → First (f a) r b q
      → First (p >>= f) s b q
  unfolding ◌>>=◌
  First-bind p f s r q a b (m, h) (n, k) = (n ++ each m f, rw (h, k) refl)

  pub each-nil :
      (f : A → Pattern B) (l : List (A × Str)) → All (λ m. f m.0 m.1 ≡ []) l → each l f ≡ []
  each-nil f [] h = refl
  each-nil f ((a, r) ∷ l) (h, k) = rw (h, each-nil f l k) refl

module _ {A : Type 0} where
  pub First-pure : (a : A) (s : Str) → First (pure a) s a s
  First-pure a s = ([], refl)

  pub First-optional : (p : Pattern A) (s : Str) → p s ≡ [] → First (optional p) s none s
  unfolding optional
  First-optional p s h = ([], rw h refl)

-- Where a run of a class ends.
abbrev pub Stops : (ℕ → Bool) → Str → Type 0
Stops is [] = Unit
Stops is (c ∷ s) = is c ≡ false

module _ (is : ℕ → Bool) where
  pub First-many :
      (cs rest : Str)
      → All (λ c. is c ≡ true) cs
      → Stops is rest
      → First (many is) (cs ++ rest) cs rest
  unfolding many
  First-many [] [] h k = ([], refl)
  First-many [] (c ∷ s) h k = ([], rw k refl)
  First-many (c ∷ cs) rest (h, hs) k =
      let (more, e) = First-many cs rest hs k in
      (map (λ m. (c ∷ m.0, m.1)) more ++ ([], c ∷ cs ++ rest) ∷ [], rw (h, e) refl)

  pub First-one : (c : ℕ) (s : Str) → is c ≡ true → First (one is) (c ∷ s) (c ∷ []) s
  unfolding one
  First-one c s h = ([], rw h refl)

  pub First-many1 :
      (c : ℕ) (cs rest : Str)
      → is c ≡ true
      → All (λ d. is d ≡ true) cs
      → Stops is rest
      → First (many1 is) (c ∷ cs ++ rest) (c ∷ cs) rest
  unfolding many1
  First-many1 c cs rest h hs k =
      First-bind (one is) (λ x. many is >>= (λ y. pure (x ++ y))) (c ∷ cs ++ rest) (cs ++ rest) rest
        (c ∷ []) (c ∷ cs) (First-one c (cs ++ rest) h)
        (First-bind (many is) (λ y. pure (c ∷ y)) (cs ++ rest) rest rest cs (c ∷ cs)
          (First-many cs rest hs k) (First-pure (c ∷ cs) rest))

abbrev pub dotted : Pattern Str
dotted = one (λ c. c == b'.') >>= (λ d. many1 is_digit >>= (λ n. pure (d ++ n)))

pub First-dotted :
    (c : ℕ) (cs rest : Str)
    → All (λ d. is_digit d ≡ true) (c ∷ cs)
    → Stops is_digit rest
    → First dotted (b'.' ∷ c ∷ cs ++ rest) (b'.' ∷ c ∷ cs) rest
First-dotted c cs rest (h, hs) k =
    First-bind (one (λ c. c == b'.')) (λ d. many1 is_digit >>= (λ n. pure (d ++ n)))
      (b'.' ∷ c ∷ cs ++ rest) (c ∷ cs ++ rest) rest (b'.' ∷ []) (b'.' ∷ c ∷ cs)
      (First-one (λ c. c == b'.') b'.' (c ∷ cs ++ rest) refl)
      (First-bind (many1 is_digit) (λ n. pure (b'.' ∷ n)) (c ∷ cs ++ rest) rest rest (c ∷ cs)
        (b'.' ∷ c ∷ cs) (First-many1 is_digit c cs rest h hs k) (First-pure (b'.' ∷ c ∷ cs) rest))

module _ (p : Pattern Str) where
  pub First-star :
      (k : ℕ) (s r q a b : Str)
      → First p s a r
      → First (star k p) r b q
      → First (star (suc k) p) s (a ++ b) q
  unfolding star
  First-star k s r q a b h i =
      let (more, e) =
        First-bind p (λ x. star k p >>= (λ y. pure (x ++ y))) s r q a (a ++ b) h
          (First-bind (star k p) (λ y. pure (a ++ y)) r q q b (a ++ b) i (First-pure (a ++ b) q)) in
      (more ++ ([], s) ∷ [], rw e refl)

  pub First-star_end : (k : ℕ) (s : Str) → p s ≡ [] → First (star k p) s [] s
  unfolding star ◌>>=◌
  First-star_end zero s h = ([], refl)
  First-star_end (suc k) s h = ([], rw h refl)
