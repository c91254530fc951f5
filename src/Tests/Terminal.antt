-- ===== src/Tests/Terminal.antt =====
-- The commands at concrete inputs.
use mcstatus_rust.Prelude.{ℕ, ◌≡◌, refl, false, Option, none, some, List, [], ◌∷◌, ◌++◌, codes}
use mcstatus_rust.Prelude.Exec.{
  Exec, Result, ok, err, timeout_error, deprecation_warning, pure, ◌>>◌, ◌>>=◌,
}
use mcstatus_rust.Io.Text.{Str}
use mcstatus_rust.Command.Output.{legacy, Status, Requests, Console, kind}
use mcstatus_rust.Command.Commands.{json_cmd, query_of}
use mcstatus_rust.Command.Main.{ping, main}
use mcstatus_rust.Command.Laws.{summary, json_cmd-summary}
use mcstatus_rust.Command.Exits.{IsExit, main-IsExit}
use mcstatus_rust.Response.Query.{QueryResponse}
use mcstatus_rust.Prelude.Int.{pos}
use mcstatus_rust.Motd.Simplify.{is_space}
use mcstatus_rust.Motd.Web.{lstrip, signed}
use mcstatus_rust.Response.Strings.{int, int_stripped, int_digits, digit10, strip}
use mcstatus_rust.Utils.Deprecation.Pattern.{is_digit}
use mcstatus_rust.Utils.Deprecation.Warn.{
  Process, text, get_project_version, wrapper, pending_removal,
}
use mcstatus_rust.Utils.Deprecation.Order.{Before}
use mcstatus_rust.Utils.Deprecation.Outcome.{wrapper-outcome}
use mcstatus_rust.Utils.Deprecation.Project.{dotted_text, get_project_version-dotted}
use mcstatus_rust.Tests.Network.{libraries, home}

-- A terminal is what was printed on it.
abbrev printing : Str → Exec (List Str) (Unit {0})
printing line lines = (ok tt, lines ++ line ∷ [])

abbrev console : Console (List Str) ℕ
console = record {
  print = printing;
  print_error = printing;
  dump = λ report. printing report.kind;
  str_int = λ z. [];
  str_latency = λ n. [];
  two_places = λ n. [];
  str_exception = λ e. codes "timeout";
  repr_exception = λ e. codes "TimeoutError()";
  str_list = λ l. [];
}

-- No server answers.
abbrev silence : Requests (List Str) ℕ
silence = record {
  ping = λ server tries s. (err timeout_error, s);
  status = λ server tries s. (err timeout_error, s);
  query = λ server tries s. (err timeout_error, s);
}

abbrev nobody : Result (Status ℕ)
nobody = err timeout_error

abbrev no_query : Result (Option QueryResponse)
no_query = ok none

no_query_of : query_of silence console (legacy home) [] ≡ (no_query, [])
unfolding ◌>>=◌
no_query_of = refl

json_cmd-summary_example :
    json_cmd silence console (legacy home) []
    ≡ (console.dump (summary (kind (legacy home)) nobody no_query) >> pure 0) []
json_cmd-summary_example =
    json_cmd-summary silence console (legacy home) nobody no_query [] [] [] refl no_query_of refl tt

main-IsExit_example :
    IsExit
      (main silence console libraries
        (record { address = b'h' ∷ []; bedrock = false; legacy = false; func = ping })
        []).0
main-IsExit_example =
    main-IsExit silence console (λ text s. (s ++ text ∷ [], refl)) libraries
      (record { address = b'h' ∷ []; bedrock = false; legacy = false; func = ping }) []

-- Version 12.1.0 is installed, and nothing has been asked yet.
abbrev fresh : Process
fresh = record { cached = none; warnings = [] }

abbrev no_decimal : ℕ → Option ℕ
no_decimal c = none

get_project_version-dotted_example :
    get_project_version no_decimal
      (some (dotted_text (b'1' ∷ b'2' ∷ []) (b'1' ∷ []) (b'0' ∷ [])))
      fresh
    ≡ (ok (pos 12, pos 1, pos 0), record { cached = some (pos 12, pos 1, pos 0); warnings = [] })
unfolding is_digit int int_stripped int_digits digit10 strip lstrip is_space signed
get_project_version-dotted_example =
    get_project_version-dotted no_decimal b'1' (b'2' ∷ []) b'1' [] b'0' [] (pos 12) (pos 1) (pos 0)
      fresh (refl, (refl, tt)) (refl, tt) (refl, tt) refl refl refl refl

abbrev seven : Exec Process ℕ
seven s = (ok 7, s)

-- `12.1.0`
abbrev twelve : Str
twelve = dotted_text (b'1' ∷ b'2' ∷ []) (b'1' ∷ []) (b'0' ∷ [])

abbrev known : Process
known = record { cached = some (pos 12, pos 1, pos 0); warnings = [] }

wrapper-outcome_example :
    (Before (pos 12, pos 1, pos 0) (pos 12, pos 1, pos 0)
      → wrapper no_decimal (some twelve) (text twelve) seven fresh
        ≡ seven (record known { warnings = [] ++ pending_removal ∷ [] }))
    × (¬ Before (pos 12, pos 1, pos 0) (pos 12, pos 1, pos 0)
        → wrapper no_decimal (some twelve) (text twelve) seven fresh
          ≡ (err deprecation_warning, known))
    × (get_project_version no_decimal (some []) known ≡ (ok (pos 12, pos 1, pos 0), known))
unfolding is_digit int int_stripped int_digits digit10 strip lstrip is_space signed
wrapper-outcome_example =
    wrapper-outcome no_decimal refl b'1' (b'2' ∷ []) b'1' [] b'0' [] (pos 12) (pos 1) (pos 0) b'1'
      (b'2' ∷ []) b'1' [] b'0' [] (pos 12) (pos 1) (pos 0) seven fresh (some [])
      ((refl, (refl, tt)), (refl, tt), (refl, tt)) (refl, refl, refl)
      ((refl, (refl, tt)), (refl, tt), (refl, tt)) (refl, refl, refl) refl
