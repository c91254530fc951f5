-- ===== src/Io/Connection/Laws.antt =====
-- mcstatus/_protocol/io/connection.py: `read` of the TCP connection over a socket that is a stream.
use mcstatus_rust.Prelude.{
  ℕ, zero, suc, ◌+◌, ◌-◌, ◌≤◌, ◌<◌, ◌≡◌, refl, ap, ◌∙◌, sym, subst, ◌⊎◌, false, [], ◌∷◌, ◌++◌,
  length, ltb, ltb→lt, lt→ltb, not_ltb, ◌==◌, arith, Bool-cases, inl, inr, append_assoc, append-nil,
  length-append,
}
use mcstatus_rust.Prelude.Exec.{Exec, Result, ok, err, os_error, ◌>>=◌}
use mcstatus_rust.Io.Text.{Bytes}
use mcstatus_rust.Io.Reader.Stream.{read_stream}
use mcstatus_rust.Io.Reader.Refine.{IsReader}
use mcstatus_rust.Io.Connection.{tcp_loop, tcp_read, tcp_reader}

-- What a `recv` of some bytes does to a stream: it takes some from the front, and none only at the
-- end.
pub record IsSocket {S : Type 0} (inv : S → Type 0) (unread : S → Bytes) (recv : ℕ → Exec S Bytes)
    : Type 0 where
  pub takes :
      (n : ℕ) (s : S)
      → inv s
      → 0 < n
      → (new : Bytes) × (t : S) × (recv n s ≡ (ok new, t))
        × (unread s ≡ new ++ unread t)
        × (length new ≤ n)
        × ((0 < length new) ⊎ (unread s ≡ []))
        × inv t

abbrev prepend : Bytes → Result Bytes × Bytes → Result Bytes × Bytes
prepend front (ok bs, rest) = (ok (front ++ bs), rest)
prepend front (err e, rest) = (err e, rest)

prepend-prepend :
    (a b : Bytes) (r : Result Bytes × Bytes) → prepend a (prepend b r) ≡ prepend (a ++ b) r
prepend-prepend a b (ok bs, rest) = ap (λ x. (ok x, rest)) (sym (append_assoc a b bs))
prepend-prepend a b (err e, rest) = refl

prepend-nil : (r : Result Bytes × Bytes) → prepend [] r ≡ r
prepend-nil (ok bs, rest) = refl
prepend-nil (err e, rest) = refl

read_stream-zero : (u : Bytes) → read_stream 0 u ≡ (ok [], u)
unfolding read_stream
read_stream-zero u = rw (not_ltb (length u) 0 (omega arith)) refl

ltb-suc : (a b : ℕ) → ltb (suc a) (suc b) ≡ ltb a b
ltb-suc a b = ground arith

read_stream-cons :
    (m b : ℕ) (xs : Bytes) → read_stream (suc m) (b ∷ xs) ≡ prepend (b ∷ []) (read_stream m xs)
unfolding read_stream
read_stream-cons m b xs = elim (Bool-cases (ltb (length xs) m)) [
  | inl h ↦ rw (ltb-suc (length xs) m, h) refl
  | inr h ↦ rw (ltb-suc (length xs) m, h) refl
]

-- A read that a first chunk does not satisfy goes on behind the chunk.
read_stream-chunk :
    (m : ℕ) (new rest : Bytes)
    → length new ≤ m
    → read_stream m (new ++ rest) ≡ prepend new (read_stream (m - length new) rest)
read_stream-chunk m [] rest h =
    sym (prepend-nil (read_stream m rest))
    ∙ ap (λ (x : ℕ). prepend [] (read_stream x rest)) (omega arith)
read_stream-chunk zero (b ∷ new) rest h = absurd (omega arith)
read_stream-chunk (suc m) (b ∷ new) rest h =
    read_stream-cons m b (new ++ rest)
    ∙ ap (prepend (b ∷ [])) (read_stream-chunk m new rest (omega arith))
    ∙ prepend-prepend (b ∷ []) new _
    ∙ ap (λ (x : ℕ). prepend (b ∷ new) (read_stream x rest)) (omega arith)

nothing_left :
    (n : ℕ) (result u : Bytes)
    → length result ≡ n
    → prepend result (read_stream (n - length result) u) ≡ (ok result, u)
nothing_left n result u e =
    let z : n - length result ≡ 0 = omega arith in
    rw (z, read_stream-zero u) (ap (λ x. (ok x, u)) (append-nil result))

-- The loop, once `result` is there.
module _ {S : Type 0} {inv : S → Type 0} {unread : S → Bytes} {recv : ℕ → Exec S Bytes}
    (socket : IsSocket inv unread recv) where
  abbrev Reads : Exec S Bytes → Result Bytes × Bytes → S → Type 0
  Reads m r s = (r ≡ ((m s).0, unread (m s).1)) × inv (m s).1

  loop_done :
      (k n : ℕ) (result : Bytes) (s : S)
      → inv s
      → length result ≡ n
      → Reads
          (tcp_loop recv k n result)
          (prepend result (read_stream (n - length result) (unread s)))
          s
  unfolding tcp_loop ◌>>=◌
  loop_done zero n result s i e = (
    rw (not_ltb (length result) n (omega arith)) (nothing_left n result (unread s) e),
    rw (not_ltb (length result) n (omega arith)) i,
  )
  loop_done (suc k) n result s i e = (
    rw (not_ltb (length result) n (omega arith)) (nothing_left n result (unread s) e),
    rw (not_ltb (length result) n (omega arith)) i,
  )

  step_end :
      (k n : ℕ) (result : Bytes) (s t : S)
      → length result < n
      → recv (n - length result) s ≡ (ok [], t)
      → tcp_loop recv (suc k) n result s ≡ (err os_error, t)
  unfolding tcp_loop ◌>>=◌
  step_end k n result s t lt run = rw (lt→ltb (length result) n lt, run) refl

  step_more :
      (k n b : ℕ) (result new : Bytes) (s t : S)
      → length result < n
      → recv (n - length result) s ≡ (ok (b ∷ new), t)
      → tcp_loop recv (suc k) n result s ≡ tcp_loop recv k n (result ++ b ∷ new) t
  unfolding tcp_loop ◌>>=◌
  step_more k n b result new s t lt run =
      let z : (suc (length new) == 0) ≡ false = ground arith in
      rw (lt→ltb (length result) n lt, run, z) refl

  at_end :
      (m : ℕ) (result u v : Bytes)
      → 0 < m
      → u ≡ []
      → u ≡ v
      → prepend result (read_stream m u) ≡ (err os_error, v)
  unfolding read_stream
  at_end m result u v h e f = let w : v ≡ [] = sym f ∙ e in rw (e, w, lt→ltb 0 m h) refl

  Reads-eq :
      (m : Exec S Bytes) (r : Result Bytes × Bytes) (s : S) (p : Result Bytes × S)
      → m s ≡ p
      → r ≡ (p.0, unread p.1)
      → inv p.1
      → Reads m r s
  Reads-eq m r s p e h i = (h ∙ ap (λ q. (q.0, unread q.1)) (sym e), subst (λ q. inv q.1) (sym e) i)

  chunk-Reads :
      (k n : ℕ) (result : Bytes) (s t : S) (new : Bytes)
      → ((result' : Bytes)
          → length result' ≤ n
          → n ≤ length result' + k
          → Reads
              (tcp_loop recv k n result')
              (prepend result' (read_stream (n - length result') (unread t)))
              t)
      → length result < n
      → n ≤ length result + suc k
      → recv (n - length result) s ≡ (ok new, t)
      → unread s ≡ new ++ unread t
      → length new ≤ n - length result
      → (0 < length new) ⊎ (unread s ≡ [])
      → inv t
      → Reads
          (tcp_loop recv (suc k) n result)
          (prepend result (read_stream (n - length result) (unread s)))
          s
  chunk-Reads k n result s t [] rec lt l run front le (inl e) it = absurd (omega arith)
  chunk-Reads k n result s t [] rec lt l run front le (inr e) it =
      Reads-eq (tcp_loop recv (suc k) n result) _ s (err os_error, t)
        (step_end k n result s t lt run)
        (at_end (n - length result) result (unread s) (unread t) (omega arith) e front) it
  chunk-Reads k n result s t (b ∷ new) rec lt l run front le enough it =
      let ih =
        rec (result ++ b ∷ new) (omega (arith, length-append result (b ∷ new)))
          (omega (arith, length-append result (b ∷ new))) in
      let e : n - length result - length (b ∷ new) ≡ n - length (result ++ b ∷ new) =
        omega (arith, length-append result (b ∷ new)) in
      Reads-eq (tcp_loop recv (suc k) n result) _ s (tcp_loop recv k n (result ++ b ∷ new) t)
        (step_more k n b result new s t lt run)
        (ap (λ u. prepend result (read_stream (n - length result) u)) front
          ∙ ap (prepend result) (read_stream-chunk (n - length result) (b ∷ new) (unread t) le)
          ∙ prepend-prepend result (b ∷ new) _
          ∙ ap (λ (x : ℕ). prepend (result ++ b ∷ new) (read_stream x (unread t))) e
          ∙ ih.0)
        ih.1

  loop-Reads :
      (k n : ℕ) (result : Bytes) (s : S)
      → inv s
      → length result ≤ n
      → n ≤ length result + k
      → Reads
          (tcp_loop recv k n result)
          (prepend result (read_stream (n - length result) (unread s)))
          s
  loop-Reads zero n result s i h l = loop_done zero n result s i (omega arith)
  loop-Reads (suc k) n result s i h l = elim (Bool-cases (ltb (length result) n)) [
    | inr full ↦ loop_done (suc k) n result s i (ground arith)
    | inl more ↦
        let lt : length result < n = ltb→lt (length result) n more in
        let (new, t, run, front, le, enough, it) =
          socket.takes (n - length result) s i (omega arith) in
        chunk-Reads k n result s t new (λ r. loop-Reads k n r t it) lt l run front le enough it
  ]

  -- For a socket whose `recv` takes at most what is asked for from the front of a stream, and nothing
  -- only at its end: reading from a TCP connection is reading from that stream, in whatever chunks the
  -- bytes arrive, and as many rounds as bytes are enough.
  pub tcp-IsReader : IsReader inv unread (tcp_reader recv)
  unfolding tcp_read
  tcp-IsReader = record {
    reads = λ n. record {
      at = λ s i.
          sym (prepend-nil (read_stream n (unread s)))
          ∙ ap (λ (x : ℕ). prepend [] (read_stream x (unread s))) (omega arith)
          ∙ (loop-Reads n n [] s i (omega arith) (omega arith)).0;
      keeps = λ s i. (loop-Reads n n [] s i (omega arith) (omega arith)).1;
    };
  }
