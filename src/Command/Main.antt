-- ===== src/Command/Main.antt =====
-- mcstatus/__main__.py: `main`, from what `argparse` gives.
use mcstatus_rust.Prelude.{ℕ, Bool, true, false, ◌++◌, codes, if◌then◌else◌}
use mcstatus_rust.Prelude.Exec.{
  Exc, Exec, Result, ok, timeout_error, connection_error, gai_error, no_nameservers, pure, raise,
  lift, catch, ◌>>=◌, ◌>>◌, bind_result,
}
use mcstatus_rust.Io.Text.{Str}
use mcstatus_rust.Net.{Libraries}
use mcstatus_rust.Server.{lookup_java, lookup_legacy, lookup_bedrock}
use mcstatus_rust.Command.Output.{SupportedServer, java, legacy, bedrock, Requests, Console}
use mcstatus_rust.Command.Commands.{ping_cmd, status_cmd, query_cmd, json_cmd}

-- `args.func`
pub data Command : Type 0 where
  ping status query json : Command

-- The namespace that `parse_args` gives.
pub record Args : Type 0 where
  pub address : Str
  pub bedrock : Bool
  pub legacy : Bool
  pub func : Command

-- The errors that are shown without a traceback.
abbrev pub is_expected : Exc → Bool
is_expected timeout_error = true
is_expected connection_error = true
is_expected gai_error = true
is_expected no_nameservers = true
is_expected e = false

-- `lookup(args.address)`
unfoldable pub lookup_server : Libraries → Args → Result SupportedServer
unfolding lookup_java lookup_legacy lookup_bedrock
lookup_server lib args =
    let as_bedrock = bind_result (lookup_bedrock lib args.address) (λ a. ok (bedrock a)) in
    let as_legacy = bind_result (lookup_legacy lib args.address) (λ a. ok (legacy a)) in
    let as_java = bind_result (lookup_java lib args.address) (λ s. ok (java s)) in
    if args.bedrock then as_bedrock else if args.legacy then as_legacy else as_java

module _ {S Latency : Type 0} (requests : Requests S Latency) (console : Console S Latency) where
  abbrev pub command : Command → SupportedServer → Exec S ℕ
  command ping = ping_cmd requests console
  command status = status_cmd requests console
  command query = query_cmd requests console
  command json = json_cmd requests console

  abbrev pub main_failed : Exc → Exec S ℕ
  main_failed e =
      if is_expected e
      then (do console.print_error (codes "Error: " ++ console.repr_exception e); pure 1)
      else raise e

  -- `main`
  unfoldable pub main : Libraries → Args → Exec S ℕ
  unfolding lookup_server ping_cmd status_cmd query_cmd json_cmd
  main lib args =
      catch (do server ← lift (lookup_server lib args); command args.func server) main_failed
