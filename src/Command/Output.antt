-- ===== src/Command/Output.antt =====
-- mcstatus/__main__.py: what the commands take and print.
use mcstatus_rust.Prelude.{
  ℕ, Bool, false, ◌||◌, Option, none, some, List, [], ◌∷◌, ◌++◌, codes, ◌==◌, if◌then◌else◌,
}
use mcstatus_rust.Prelude.Int.{ℤ}
use mcstatus_rust.Prelude.Exec.{Exc, Exec, Result, ok, bind_result}
use mcstatus_rust.Io.Text.{Str}
use mcstatus_rust.Motd.Parse.{Motd}
use mcstatus_rust.Motd.Transform.Html.{to_ansi}
use mcstatus_rust.Net.{Address}
use mcstatus_rust.Server.{JavaServer}
use mcstatus_rust.Response.Status.{JavaStatusResponse, JavaStatusPlayer}
use mcstatus_rust.Response.Legacy.{LegacyStatusResponse}
use mcstatus_rust.Response.Bedrock.{BedrockStatusResponse}
use mcstatus_rust.Response.Query.{QueryResponse}

-- `SupportedServers`
pub data SupportedServer : Type 0 where
  java : JavaServer → SupportedServer
  legacy : Address → SupportedServer
  bedrock : Address → SupportedServer

pub data Status (Latency : Type 0) : Type 0 where
  java_status : JavaStatusResponse Latency → Status Latency
  legacy_status : LegacyStatusResponse Latency → Status Latency
  bedrock_status : BedrockStatusResponse Latency → Status Latency

abbrev pub contains : ℕ → Str → Bool
contains c [] = false
contains c (d ∷ s) = d == c || contains c s

-- `_motd`
unfoldable pub format_motd : Motd → Result Str
unfolding to_ansi
format_motd motd =
    bind_result (to_ansi motd.bedrock motd.parsed)
      (λ s. ok (if contains 10 s then 10 ∷ s else b' ' ∷ s))

-- `_kind`
unfoldable pub kind : SupportedServer → Str
kind (java server) = codes "Java"
kind (legacy server) = codes "Java (pre-1.7)"
kind (bedrock server) = codes "Bedrock"

-- What `json_cmd` dumps; the responses stand for the dicts that `as_dict` makes of them.
pub record Report (Latency : Type 0) : Type 0 where
  pub online : Bool
  pub kind : Str
  pub error : Option Exc
  pub status : Option (Status Latency)
  pub query : Option QueryResponse

-- What the commands print with, and how Python writes a number, a latency, an exception and a list.
pub record Console (S Latency : Type 0) : Type 0 where
  pub print : Str → Exec S (Unit {0})
  pub print_error : Str → Exec S (Unit {0})
  pub dump : Report Latency → Exec S (Unit {0})
  pub str_int : ℤ → Str
  pub str_latency : Latency → Str
  pub two_places : Latency → Str
  pub str_exception : Exc → Str
  pub repr_exception : Exc → Str
  pub str_list : List Str → Str

-- The requests of the servers, with as many tries as are given.
pub record Requests (S Latency : Type 0) : Type 0 where
  pub ping : JavaServer → ℕ → Exec S Latency
  pub status : SupportedServer → ℕ → Exec S (Status Latency)
  pub query : JavaServer → ℕ → Exec S QueryResponse

-- `"\n  ".join(…)`, behind a line break and two blanks
abbrev pub player_lines : List JavaStatusPlayer → Str
player_lines [] = []
player_lines (p ∷ ps) = codes "\n  " ++ p.name ++ codes " (" ++ p.id ++ codes ")" ++ player_lines ps

abbrev pub sample_lines : Option (List JavaStatusPlayer) → Str
sample_lines none = []
sample_lines (some sample) = player_lines sample

module _ {Latency : Type 0} where
  abbrev pub latency_of : Status Latency → Latency
  latency_of (java_status r) = r.latency
  latency_of (legacy_status r) = r.latency
  latency_of (bedrock_status r) = r.latency

  abbrev pub version_of : Status Latency → Str × ℤ
  version_of (java_status r) = (r.version.name, r.version.protocol)
  version_of (legacy_status r) = (r.name, r.protocol)
  version_of (bedrock_status r) = (r.name, r.protocol)

  abbrev pub players_of : Status Latency → ℤ × ℤ
  players_of (java_status r) = (r.players.online, r.players.max)
  players_of (legacy_status r) = (r.online, r.max)
  players_of (bedrock_status r) = (r.online, r.max)

  abbrev pub motd_of : Status Latency → Motd
  motd_of (java_status r) = r.motd
  motd_of (legacy_status r) = r.motd
  motd_of (bedrock_status r) = r.motd

  abbrev pub player_sample : Status Latency → Str
  player_sample (java_status r) = sample_lines r.players.sample
  player_sample (legacy_status r) = []
  player_sample (bedrock_status r) = []
