-- ===== src/Response/Status.antt =====
-- mcstatus/responses/java.py: the response of a Java server.
use mcstatus_rust.Prelude.{Bool, false, Option, none, some, List, [], ◌∷◌}
use mcstatus_rust.Prelude.Int.{ℤ}
use mcstatus_rust.Prelude.Exec.{Result, ok, err, key_error, bind_result}
use mcstatus_rust.Prelude.{ℕ}
use mcstatus_rust.Io.Text.{Str}
use mcstatus_rust.Motd.Parse.{Motd, Raw, raw_text, parse}
use mcstatus_rust.Response.Forge.Decode.{ForgeData, RawForgeData, build}

pub record JavaStatusPlayer : Type 0 where
  pub name : Str
  pub id : Str

pub record JavaStatusPlayers : Type 0 where
  pub online : ℤ
  pub max : ℤ
  pub sample : Option (List JavaStatusPlayer)

pub record JavaStatusVersion : Type 0 where
  pub name : Str
  pub protocol : ℤ

-- The raw dicts: a key that may be missing is an option.
pub record RawPlayer : Type 0 where
  pub name : Option Str
  pub id : Option Str

pub record RawPlayers : Type 0 where
  pub online : Option ℤ
  pub max : Option ℤ
  pub sample : Option (List RawPlayer)

pub record RawVersion : Type 0 where
  pub name : Option Str
  pub protocol : Option ℤ

-- An empty dict under a key of the mod data counts as a missing key.
pub record RawJavaResponse : Type 0 where
  pub players : Option RawPlayers
  pub version : Option RawVersion
  pub description : Option Raw
  pub enforces_secure_chat : Option Bool
  pub favicon : Option Str
  pub forge_data : Option RawForgeData
  pub modinfo : Option RawForgeData

pub record JavaStatusResponse (Latency : Type 0) : Type 0 where
  pub raw : RawJavaResponse
  pub players : JavaStatusPlayers
  pub version : JavaStatusVersion
  pub motd : Motd
  pub enforces_secure_chat : Option Bool
  pub icon : Option Str
  pub latency : Latency
  pub forge_data : Option ForgeData

-- `raw[key]`
abbrev item : {A : Type 0} → Option A → Result A
item none = err key_error
item (some a) = ok a

-- `JavaStatusPlayer.build`
unfoldable pub build_player : RawPlayer → Result JavaStatusPlayer
build_player raw =
    bind_result (item raw.name)
      (λ n. bind_result (item raw.id) (λ i. ok (record { name = n; id = i })))

unfoldable pub build_sample : List RawPlayer → Result (List JavaStatusPlayer)
unfolding build_player
build_sample [] = ok []
build_sample (p ∷ ps) =
    bind_result (build_player p) (λ q. bind_result (build_sample ps) (λ qs. ok (q ∷ qs)))

abbrev sample_of : Option (List RawPlayer) → Result (Option (List JavaStatusPlayer))
sample_of none = ok none
sample_of (some ps) = bind_result (build_sample ps) (λ qs. ok (some qs))

-- `JavaStatusPlayers.build`
unfoldable pub build_players : RawPlayers → Result JavaStatusPlayers
unfolding build_sample
build_players raw = bind_result (sample_of raw.sample) (λ s.
    bind_result (item raw.online)
      (λ o. bind_result (item raw.max) (λ m. ok (record { online = o; max = m; sample = s }))))

-- `JavaStatusVersion.build`
unfoldable pub build_version : RawVersion → Result JavaStatusVersion
build_version raw =
    bind_result (item raw.name)
      (λ n. bind_result (item raw.protocol) (λ p. ok (record { name = n; protocol = p })))

abbrev either : {A : Type 0} → Option A → Option A → Option A
either (some a) o = some a
either none o = o

abbrev build_forge : Option RawForgeData → Result (Option ForgeData)
build_forge none = ok none
build_forge (some raw) = bind_result (build raw) (λ f. ok (some f))

abbrev description_of : Option Raw → Raw
description_of none = raw_text []
description_of (some raw) = raw

-- `JavaStatusResponse.build`
unfoldable pub build_status :
    {Latency : Type 0}
    → (ℕ → Option ℕ)
    → RawJavaResponse
    → Latency
    → Result (JavaStatusResponse Latency)
unfolding build_players build_version build parse
build_status decimal raw latency =
    bind_result (build_forge (either raw.forge_data raw.modinfo)) (λ forge.
      bind_result (bind_result (item raw.players) build_players) (λ ps.
        bind_result (bind_result (item raw.version) build_version) (λ v.
          bind_result (parse decimal false (description_of raw.description)) (λ m. ok (record {
            raw = raw;
            players = ps;
            version = v;
            motd = m;
            enforces_secure_chat = raw.enforces_secure_chat;
            icon = raw.favicon;
            latency = latency;
            forge_data = forge;
          })))))
