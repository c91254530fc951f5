-- ===== src/Client/Query/Takes.antt =====
-- mcstatus/_protocol/query_client.py: how many bytes a step of the parser takes.
use mcstatus_rust.Prelude.{
  ℕ, ◌+◌, ◌≤◌, ◌<◌, ◌≡◌, ◌≢◌, refl, Bool, true, false, length, take, length-drop, ltb, arith,
  if◌then◌else◌, ap,
}
use mcstatus_rust.Prelude.Int.{pos}
use mcstatus_rust.Prelude.Exec.{
  Exec, Result, ok, err, os_error, out_of_rounds, next, pure, lift, ◌>>=◌,
}
use mcstatus_rust.Io.Text.{Bytes}
use mcstatus_rust.Io.Buffer.{Buffer, read, unread_view}

abbrev pub left : Buffer → ℕ
left b = length (unread_view b)

-- At least `d` bytes are taken by a result, and no error says that the rounds are used up.
abbrev pub Took : {A : Type 0} → ℕ → ℕ → Result A × Buffer → Type 0
Took d u (ok a, t) = left t + d ≤ u
Took d u (err e, t) = e ≢ out_of_rounds

-- From fewer than `n` bytes on.
pub record Takes {A : Type 0} (d n : ℕ) (m : Exec Buffer A) : Type 0 where
  pub at : (b : Buffer) → left b < n → Took d (left b) (m b)

module _ {A : Type 0} where
  Took-weaken : (d e u v : ℕ) (p : Result A × Buffer) → e ≤ d → u ≤ v → Took d u p → Took e v p
  Took-weaken d e u v (ok a, t) le lu h = omega arith
  Took-weaken d e u v (err x, t) le lu h = h

  pub Takes-weaken : (d e m n : ℕ) (f : Exec Buffer A) → e ≤ d → m ≤ n → Takes d n f → Takes e m f
  Takes-weaken d e m n f le lm h = record {
    at = λ b lt. Took-weaken d e (left b) (left b) (f b) le (omega arith) (h.at b (omega arith));
  }

  pub Takes-pure : (n : ℕ) (a : A) → Takes 0 n (pure a)
  unfolding ◌>>=◌
  Takes-pure n a = record { at = λ b lt. omega arith }

  pub Takes-if :
      (d n : ℕ) (c : Bool) (f g : Exec Buffer A)
      → Takes d n f
      → Takes d n g
      → Takes d n (if c then f else g)
  Takes-if d n true f g h k = h
  Takes-if d n false f g h k = k

  Took-add : (d e u v : ℕ) (p : Result A × Buffer) → v + d ≤ u → Took e v p → Took (d + e) u p
  Took-add d e u v (ok a, t) l h = omega arith
  Took-add d e u v (err x, t) l h = h

module _ {A B : Type 0} where
  Took-next :
      (d e n u : ℕ) (p : Result A × Buffer) (f : A → Exec Buffer B)
      → u < d + n
      → Took d u p
      → ((a : A) → Takes e n (f a))
      → Took (d + e) u (next p f)
  Took-next d e n u (ok a, t) f lt h k =
      Took-add d e u (left t) (f a t) h ((k a).at t (omega arith))
  Took-next d e n u (err x, t) f lt h k = h

  pub Takes-bind :
      (d e c n m : ℕ) (f : Exec Buffer A) (g : A → Exec Buffer B)
      → c ≤ d + e
      → m ≤ d + n
      → Takes d m f
      → ((a : A) → Takes e n (g a))
      → Takes c m (f >>= g)
  unfolding ◌>>=◌
  Takes-bind d e c n m f g le lm h k = record {
    at = λ b lt.
        Took-weaken (d + e) c (left b) (left b) (next (f b) g) le (omega arith)
          (Took-next d e n (left b) (f b) g (omega arith) (h.at b lt) k);
  }

abbrev read_at : Bool → ℕ → Buffer → Result Bytes × Buffer
read_at true n b = (err os_error, record b { pos = length b.content })
read_at false n b = (ok (take n (unread_view b)), record b { pos = b.pos + n })

read_as :
    (n : ℕ) (b : Buffer) (c : Bool)
    → ltb (length b.content) (b.pos + n) ≡ c
    → read (pos n) b ≡ read_at c n b
unfolding read unread_view
read_as n b true h = rw h refl
read_as n b false h = rw h refl

Took-read_at :
    (n : ℕ) (b : Buffer) (c : Bool)
    → ltb (length b.content) (b.pos + n) ≡ c
    → Took n (left b) (read_at c n b)
unfolding unread_view
Took-read_at n b true h = λ e. cc
Took-read_at n b false h =
    let fits : b.pos + n ≤ length b.content = ground arith in
    omega (arith, fits, length-drop {0} (b.pos + n) b.content, length-drop {0} b.pos b.content)

pub Takes-read : (n k : ℕ) → Takes n k (read (pos n))
Takes-read n k = record { at = λ b lt. rw (read_as n b _ refl) (Took-read_at n b _ refl) }

pub Takes-skip : (n k : ℕ) → Takes 0 k (read (pos n))
Takes-skip n k = Takes-weaken n 0 k k (read (pos n)) (omega arith) (omega arith) (Takes-read n k)

pub Takes-unread : (k : ℕ) → Takes 0 k (λ b. (ok (unread_view b), b))
Takes-unread k = record { at = λ b lt. omega arith }

Took-lift :
    {A : Type 0} (r : Result A) (b : Buffer) → r ≢ err out_of_rounds → Took 0 (left b) (r, b)
Took-lift (ok a) b h = omega arith
Took-lift (err e) b h = λ x. h (ap err x)

pub Takes-lift : {A : Type 0} (n : ℕ) (r : Result A) → r ≢ err out_of_rounds → Takes 0 n (lift r)
unfolding ◌>>=◌
Takes-lift n r h = record { at = λ b lt. Took-lift r b h }

pub Took-ends : {A : Type 0} (u : ℕ) (p : Result A × Buffer) → Took 0 u p → p.0 ≢ err out_of_rounds
Took-ends u (ok a, t) h = λ e. cc
Took-ends u (err x, t) h = λ e. h cc
