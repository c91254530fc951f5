-- ===== src/Response/Query.antt =====
-- mcstatus/responses/query.py: the response to a query.
use mcstatus_rust.Prelude.{
  ℕ, false, Option, none, some, List, [], ◌∷◌, map, codes, ◌=s=◌, if◌then◌else◌,
}
use mcstatus_rust.Prelude.Int.{ℤ}
use mcstatus_rust.Prelude.Exec.{Result, ok, err, key_error, bind_result}
use mcstatus_rust.Io.Text.{Str}
use mcstatus_rust.Motd.Parse.{Motd, raw_text, parse}
use mcstatus_rust.Response.Strings.{strip, split, split_once, int}

-- The dict, with the latest value of a key first.
abbrev pub RawQueryResponse : Type 0
RawQueryResponse = List (Str × Str)

-- `raw[key]`
unfoldable pub item : RawQueryResponse → Str → Result Str
item [] key = err key_error
item ((k, v) ∷ rest) key = let more = item rest key in if k =s= key then ok v else more

pub record QueryPlayers : Type 0 where
  pub online : ℤ
  pub max : ℤ
  pub list : List Str

pub record QuerySoftware : Type 0 where
  pub version : Str
  pub brand : Str
  pub plugins : List Str

pub record QueryResponse : Type 0 where
  pub raw : RawQueryResponse
  pub motd : Motd
  pub map_name : Str
  pub players : QueryPlayers
  pub software : QuerySoftware
  pub ip : Str
  pub port : ℤ
  pub game_type : Str
  pub game_id : Str

abbrev plugins_of : Str × Option Str → Str × List Str
plugins_of (brand, none) = (strip brand, [])
plugins_of (brand, some plugins) = (strip brand, map strip (split b';' plugins))

-- `QuerySoftware._parse_plugins`
unfoldable pub parse_plugins : Str → Str × List Str
unfolding strip split split_once
parse_plugins [] = (codes "vanilla", [])
parse_plugins (c ∷ plugins) = plugins_of (split_once b':' (c ∷ plugins))

-- `QuerySoftware.build`
unfoldable pub build_software : Str → Str → QuerySoftware
unfolding parse_plugins
build_software version plugins =
    let parsed = parse_plugins plugins in
    record { version = version; brand = parsed.0; plugins = parsed.1 }

module _ (decimal : ℕ → Option ℕ) where
  -- `QueryPlayers.build`
  unfoldable pub build_players : RawQueryResponse → List Str → Result QueryPlayers
  unfolding item int
  build_players raw players_list =
      bind_result (bind_result (item raw (codes "numplayers")) (int decimal)) (λ o.
        bind_result (bind_result (item raw (codes "maxplayers")) (int decimal))
          (λ m. ok (record { online = o; max = m; list = players_list })))

  -- `QueryResponse.build`
  unfoldable pub build_query : RawQueryResponse → List Str → Result QueryResponse
  unfolding item int build_players build_software parse
  build_query raw players_list =
      bind_result
        (bind_result (item raw (codes "hostname")) (λ h. parse decimal false (raw_text h)))
        (λ m. bind_result (item raw (codes "map")) (λ map_name_.
          bind_result (build_players raw players_list) (λ ps.
            bind_result (item raw (codes "version")) (λ v.
              bind_result (item raw (codes "plugins")) (λ pl.
                bind_result (item raw (codes "hostip")) (λ ip_.
                  bind_result (bind_result (item raw (codes "hostport")) (int decimal)) (λ port_.
                    bind_result (item raw (codes "gametype")) (λ gt.
                      bind_result (item raw (codes "game_id")) (λ gi. ok (record {
                        raw = raw;
                        motd = m;
                        map_name = map_name_;
                        players = ps;
                        software = build_software v pl;
                        ip = ip_;
                        port = port_;
                        game_type = gt;
                        game_id = gi;
                      }))))))))))
