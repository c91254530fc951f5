-- ===== src/Command/Exits.antt =====
-- mcstatus/__main__.py: the exit codes.
use mcstatus_rust.Prelude.{
  ℕ, ◌≤◌, ◌≡◌, false, Bool-cases, inl, inr, Option, none, some, ◌++◌, codes, arith,
}
use mcstatus_rust.Prelude.Exec.{
  Exc, Exec, Result, ok, err, next, caught, pure, raise, lift, catch, ◌>>=◌,
}
use mcstatus_rust.Io.Text.{Str}
use mcstatus_rust.Net.{Libraries}
use mcstatus_rust.Server.{JavaServer}
use mcstatus_rust.Response.Query.{QueryResponse}
use mcstatus_rust.Command.Output.{SupportedServer, java, legacy, bedrock, Requests, Console}
use mcstatus_rust.Command.Commands.{json_cmd, ping_cmd, status_cmd, query_cmd, print_query, or_one}
use mcstatus_rust.Command.Main.{
  Args, Command, ping, status, query, json, is_expected, lookup_server, command, main_failed, main,
}

-- A method whose value, if there is one, is 0 or 1.
abbrev pub Small : Result ℕ → Type 0
Small (ok n) = n ≤ 1
Small (err e) = Unit

record GivesSmall {S : Type 0} (m : Exec S ℕ) : Type 0 where
  gives : (s : S) → Small (m s).0

module _ {S : Type 0} where
  GivesSmall-pure : (n : ℕ) → n ≤ 1 → GivesSmall {S = S} (pure n)
  unfolding ◌>>=◌
  GivesSmall-pure n h = record { gives = λ s. h }

  GivesSmall-raise : (e : Exc) → GivesSmall {S = S} (raise e)
  unfolding ◌>>=◌
  GivesSmall-raise e = record { gives = λ s. tt }

  Small-next :
      {A : Type 0} (p : Result A × S) (f : A → Exec S ℕ)
      → ((a : A) → GivesSmall (f a))
      → Small (next p f).0
  Small-next (ok a, s) f h = (h a).gives s
  Small-next (err e, s) f h = tt

  GivesSmall-bind :
      {A : Type 0} (m : Exec S A) (f : A → Exec S ℕ)
      → ((a : A) → GivesSmall (f a))
      → GivesSmall (m >>= f)
  unfolding ◌>>=◌
  GivesSmall-bind m f h = record { gives = λ s. Small-next (m s) f h }

ruleset small_rules = (GivesSmall-raise, GivesSmall-bind)

-- An exit code, or an exception that is not among those that are shown without a traceback.
abbrev pub IsExit : Result ℕ → Type 0
IsExit (ok n) = n ≤ 1
IsExit (err e) = is_expected e ≡ false

module _ {S Latency : Type 0} (requests : Requests S Latency) (console : Console S Latency) where
  zero_small : GivesSmall {S = S} (pure 0)
  zero_small = GivesSmall-pure 0 (omega arith)

  one_small : GivesSmall {S = S} (pure 1)
  one_small = GivesSmall-pure 1 (omega arith)

  query-GivesSmall :
      (server : JavaServer) (r : QueryResponse) → GivesSmall (print_query requests console server r)
  unfolding print_query
  query-GivesSmall server r = search (small_rules, zero_small) depth 12

  or_one-GivesSmall :
      (server : JavaServer) (r : Option QueryResponse)
      → GivesSmall (or_one requests console server r)
  or_one-GivesSmall server none = one_small
  or_one-GivesSmall server (some r) = query-GivesSmall server r

  query_cmd-GivesSmall : (server : SupportedServer) → GivesSmall (query_cmd requests console server)
  unfolding query_cmd
  query_cmd-GivesSmall (java server) = search (small_rules, or_one-GivesSmall)
  query_cmd-GivesSmall (legacy server) = search (small_rules, one_small)
  query_cmd-GivesSmall (bedrock server) = search (small_rules, one_small)

  command-GivesSmall :
      (c : Command) (server : SupportedServer) → GivesSmall (command requests console c server)
  unfolding ping_cmd status_cmd json_cmd
  command-GivesSmall ping server = search (small_rules, zero_small)
  command-GivesSmall status server = search (small_rules, zero_small) depth 12
  command-GivesSmall query server = query_cmd-GivesSmall server
  command-GivesSmall json server = search (small_rules, zero_small) depth 9

  module _
      (prints : (text : Str) (s : S) → (t : S) × (console.print_error text s ≡ (ok tt, t))) where
    failed-IsExit : (e : Exc) (s : S) → IsExit (main_failed requests console e s).0
    unfolding ◌>>=◌
    failed-IsExit e s = elim (Bool-cases (is_expected e)) [
      | inl expected ↦
          let (t, printed) = prints (codes "Error: " ++ console.repr_exception e) s in
          rw (expected, printed) (omega arith)
      | inr unexpected ↦ rw unexpected unexpected
    ]

    caught-IsExit :
        (p : Result ℕ × S) → Small p.0 → IsExit (caught p (main_failed requests console)).0
    caught-IsExit (ok n, s) h = h
    caught-IsExit (err e, s) h = failed-IsExit e s

    -- If errors can be printed: `main` returns 0 or 1, or raises an exception that is none of those that
    -- it shows without a traceback.
    pub main-IsExit :
        (lib : Libraries) (args : Args) (s : S) → IsExit (main requests console lib args s).0
    unfolding main catch
    main-IsExit lib args s =
        caught-IsExit _ (
          (GivesSmall-bind (lift (lookup_server lib args)) _ (command-GivesSmall args.func)).gives
            s)
