-- ===== src/Command/Laws.antt =====
-- mcstatus/__main__.py: what the commands return and dump.
use mcstatus_rust.Prelude.{◌≡◌, refl, true, false, Option, none, some}
use mcstatus_rust.Prelude.Exec.{Exec, Result, ok, err, pure, ◌>>=◌, ◌>>◌}
use mcstatus_rust.Io.Text.{Str}
use mcstatus_rust.Server.Requests.{is_exception}
use mcstatus_rust.Response.Query.{QueryResponse}
use mcstatus_rust.Command.Output.{SupportedServer, Status, Report, Requests, Console, kind}
use mcstatus_rust.Command.Commands.{attempt, query_of, json_cmd}

-- A result, or an exception of Python.
abbrev pub IsPython : {A : Type 0} → Result A → Type 0
IsPython (ok a) = Unit
IsPython (err e) = is_exception e ≡ true

-- The report of the two answers: online if one of them is there, with the error of the status if not.
abbrev pub summary :
    {Latency : Type 0}
    → Str
    → Result (Status Latency)
    → Result (Option QueryResponse)
    → Report Latency
summary k (ok s) (ok q) = record {
  online = true;
  kind = k;
  error = none;
  status = some s;
  query = q;
}
summary k (ok s) (err e) = record {
  online = true;
  kind = k;
  error = none;
  status = some s;
  query = none;
}
summary k (err e) (ok (some q)) = record {
  online = true;
  kind = k;
  error = none;
  status = none;
  query = some q;
}
summary k (err e) (ok none) = record {
  online = false;
  kind = k;
  error = some e;
  status = none;
  query = none;
}
summary k (err e) (err x) = record {
  online = false;
  kind = k;
  error = some e;
  status = none;
  query = none;
}

module _ {S A : Type 0} where
  attempt_of :
      (m : Exec S A) (r : Result A) (s t : S) → m s ≡ (r, t) → IsPython r → attempt m s ≡ (ok r, t)
  unfolding attempt
  attempt_of m (ok a) s t e h = rw e refl
  attempt_of m (err x) s t e h = rw (e, h) refl

module _ {S Latency : Type 0} (requests : Requests S Latency) (console : Console S Latency) where
  reported :
      (server : SupportedServer) (r : Result (Status Latency)) (q : Result (Option QueryResponse))
      (s t u : S)
      → attempt (requests.status server 1) s ≡ (ok r, t)
      → attempt (query_of requests console server) t ≡ (ok q, u)
      → json_cmd requests console server s ≡ (console.dump (summary (kind server) r q) >> pure 0) u
  unfolding json_cmd ◌>>=◌
  reported server (ok r) (ok none) s t u e f = rw (e, f) refl
  reported server (ok r) (ok (some q)) s t u e f = rw (e, f) refl
  reported server (ok r) (err x) s t u e f = rw (e, f) refl
  reported server (err y) (ok none) s t u e f = rw (e, f) refl
  reported server (err y) (ok (some q)) s t u e f = rw (e, f) refl
  reported server (err y) (err x) s t u e f = rw (e, f) refl

  -- Whatever the status and the query of a server give or raise, `json_cmd` dumps the report of the two
  -- and returns 0: its assertion never fails.
  pub json_cmd-summary :
      (server : SupportedServer) (r : Result (Status Latency)) (q : Result (Option QueryResponse))
      (s t u : S)
      → requests.status server 1 s ≡ (r, t)
      → query_of requests console server t ≡ (q, u)
      → IsPython r
      → IsPython q
      → json_cmd requests console server s ≡ (console.dump (summary (kind server) r q) >> pure 0) u
  json_cmd-summary server r q s t u e f h k =
      reported server r q s t u (attempt_of (requests.status server 1) r s t e h)
        (attempt_of (query_of requests console server) q t u f k)
