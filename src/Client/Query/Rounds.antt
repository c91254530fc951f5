-- ===== src/Client/Query/Rounds.antt =====
-- mcstatus/_protocol/query_client.py: the rounds of the loops of the parser.
use mcstatus_rust.Prelude.{
  ℕ, zero, suc, ◌≤◌, ◌≢◌, Bool, true, false, Bool-cases, inl, inr, Option, none, some, List, [],
  ◌∷◌, ◌++◌, codes, length, ◌==◌, ◌=s=◌, arith,
}
use mcstatus_rust.Response.Strings.{strip, int, int_stripped, signed_int}
use mcstatus_rust.Prelude.Int.{pos}
use mcstatus_rust.Prelude.Exec.{ok, err, out_of_rounds, pure, lift, ◌>>=◌, ◌>>◌}
use mcstatus_rust.Io.Text.{Str, Bytes}
use mcstatus_rust.Io.Reader.{ascii_loop, read_ascii, ends_null}
use mcstatus_rust.Io.Buffer.{Buffer, read, unread_view, buffer_reader}
use mcstatus_rust.Client.Query.{
  motd_of, motd_length, fields_loop, players_loop, parse_response, parse_answer, read_challenge,
}
use mcstatus_rust.Response.Query.{RawQueryResponse}
use mcstatus_rust.Client.Query.Takes.{
  left, Takes, Took-ends, Takes-weaken, Takes-pure, Takes-if, Takes-bind, Takes-read, Takes-skip,
  Takes-unread, Takes-lift,
}

Takes-ascii_loop : (k : ℕ) (result : Bytes) → Takes 1 k (ascii_loop buffer_reader k result)
unfolding ascii_loop
Takes-ascii_loop zero result = record { at = λ b lt. absurd (omega arith) }
Takes-ascii_loop (suc k) result =
    Takes-bind 1 0 1 k (suc k) (read (pos 1)) _ (omega arith) (omega arith) (Takes-read 1 (suc k))
      (λ b.
        Takes-if 0 k (ends_null (result ++ b)) _ _ (Takes-pure k _)
          (Takes-weaken 1 0 k k _ (omega arith) (omega arith) (Takes-ascii_loop k (result ++ b))))

Takes-read_ascii : (k : ℕ) → Takes 1 k (read_ascii buffer_reader k)
unfolding read_ascii
Takes-read_ascii k = Takes-ascii_loop k []

Takes-fields_loop : (k n : ℕ) (data_ : RawQueryResponse) → k ≤ n → Takes 0 k (fields_loop k n data_)
unfolding fields_loop
Takes-fields_loop zero n data_ le = record { at = λ b lt. absurd (omega arith) }
Takes-fields_loop (suc k) n data_ le =
    Takes-bind 1 0 0 k (suc k) (read_ascii buffer_reader n) _ (omega arith) (omega arith)
      (Takes-weaken 1 1 (suc k) n _ (omega arith) le (Takes-read_ascii n))
      (λ key.
        Takes-if 0 k (key =s= codes "hostname") _ _
          (Takes-bind 0 0 0 k k (λ b. (ok (unread_view b), b)) _ (omega arith) (omega arith)
            (Takes-unread k)
            (λ unread.
              Takes-bind 0 0 0 k k (read (pos (motd_length (motd_of unread)))) _ (omega arith)
                (omega arith) (Takes-skip _ k)
                (λ value.
                  Takes-bind 0 0 0 k k (read (pos 1)) _ (omega arith) (omega arith) (Takes-skip 1 k)
                    (λ x. Takes-fields_loop k n _ (omega arith)))))
          (Takes-if 0 k (length key == 0) _ _
            (Takes-bind 0 0 0 k k (read (pos 1)) _ (omega arith) (omega arith) (Takes-skip 1 k)
              (λ x. Takes-pure k data_))
            (Takes-bind 0 0 0 k k (read_ascii buffer_reader n) _ (omega arith) (omega arith)
              (Takes-weaken 1 0 k n _ (omega arith) (omega arith) (Takes-read_ascii n))
              (λ value. Takes-fields_loop k n _ (omega arith)))))

Takes-players_loop : (k n : ℕ) (players : List Str) → k ≤ n → Takes 0 k (players_loop k n players)
unfolding players_loop
Takes-players_loop zero n players le = record { at = λ b lt. absurd (omega arith) }
Takes-players_loop (suc k) n players le =
    Takes-bind 1 0 0 k (suc k) (read_ascii buffer_reader n) _ (omega arith) (omega arith)
      (Takes-weaken 1 1 (suc k) n _ (omega arith) le (Takes-read_ascii n))
      (λ player.
        Takes-if 0 k (length player == 0) _ _ (Takes-pure k players)
          (Takes-players_loop k n _ (omega arith)))

Takes-body :
    (n : ℕ)
    → Takes {A = RawQueryResponse × List Str} 0 n (do
      read (pos 11)
      data_ ← fields_loop n n []
      read (pos 9)
      players ← players_loop n n []
      pure (data_, players))
Takes-body n =
    Takes-bind 0 0 0 n n (read (pos 11)) _ (omega arith) (omega arith) (Takes-skip 11 n) (λ x.
      Takes-bind 0 0 0 n n (fields_loop n n []) _ (omega arith) (omega arith)
        (Takes-fields_loop n n [] (omega arith))
        (λ data_.
          Takes-bind 0 0 0 n n (read (pos 9)) _ (omega arith) (omega arith) (Takes-skip 9 n) (λ y.
            Takes-bind 0 0 0 n n (players_loop n n []) _ (omega arith) (omega arith)
              (Takes-players_loop n n [] (omega arith))
              (λ players. Takes-pure n (data_, players)))))

Takes-parse_response : (m : ℕ) → Takes 0 m parse_response
unfolding parse_response ◌>>=◌
Takes-parse_response m = record { at = λ b lt. (Takes-body (suc (left b))).at b (omega arith) }

Takes-parse_answer : (m : ℕ) → Takes 0 m parse_answer
unfolding parse_answer
Takes-parse_answer m =
    Takes-bind 0 0 0 m m (read (pos 5)) _ (omega arith) (omega arith) (Takes-skip 5 m)
      (λ x. Takes-parse_response m)

-- The number of a text is read or refused.
module _ (decimal : ℕ → Option ℕ) where
  signed_int-ends :
      (negative : Bool) (n : Option ℕ) → signed_int decimal negative n ≢ err out_of_rounds
  signed_int-ends negative none = λ e. cc
  signed_int-ends negative (some n) = λ e. cc

  int-ends : (s : Str) → int_stripped decimal s ≢ err out_of_rounds
  unfolding int_stripped
  int-ends [] = λ e. cc
  int-ends (c ∷ s) = elim (Bool-cases (c == 45)) [
    | inl e ↦ rw e (signed_int-ends true _)
    | inr e ↦ rw e (elim (Bool-cases (c == 43)) [
      | inl f ↦ rw f (signed_int-ends false _)
      | inr f ↦ rw f (signed_int-ends false _)
    ])
  ]

  Takes-read_challenge : (m : ℕ) → Takes 0 m (read_challenge decimal)
  unfolding read_challenge int ◌>>=◌
  Takes-read_challenge m = record {
    at = λ b lt. (Takes-challenge (suc (left b))).at b (omega arith);
  }
    where
      Takes-challenge :
          (n : ℕ)
          → Takes 0 n (do
            read (pos 5)
            text ← read_ascii buffer_reader n
            lift (int_stripped decimal (strip text)))
      Takes-challenge n =
          Takes-bind 0 0 0 n n (read (pos 5)) _ (omega arith) (omega arith) (Takes-skip 5 n) (λ x.
            Takes-bind 0 0 0 n n (read_ascii buffer_reader n) _ (omega arith) (omega arith)
              (Takes-weaken 1 0 n n _ (omega arith) (omega arith) (Takes-read_ascii n))
              (λ text. Takes-lift n _ (int-ends (strip text))))

-- On every answer, whatever its bytes, the loops of the query parser over the fields, the players and the
-- bytes of a text end, in a result or an exception, and so does the reading of the challenge.
pub parse_answer-ends :
    (decimal : ℕ → Option ℕ) (b : Buffer)
    → ((parse_answer b).0 ≢ err out_of_rounds) × ((read_challenge decimal b).0 ≢ err out_of_rounds)
parse_answer-ends decimal b = (
  Took-ends (left b) (parse_answer b) ((Takes-parse_answer (suc (left b))).at b (omega arith)),
  Took-ends (left b) (read_challenge decimal b)
      ((Takes-read_challenge decimal (suc (left b))).at b (omega arith)),
)
