-- ===== src/Response/Bedrock.antt =====
-- mcstatus/responses/bedrock.py: the response of a Bedrock server.
use mcstatus_rust.Prelude.{ℕ, zero, suc, true, Option, none, some, List, [], ◌∷◌}
use mcstatus_rust.Prelude.Int.{ℤ}
use mcstatus_rust.Prelude.Exec.{Result, ok, err, index_error, bind_result}
use mcstatus_rust.Io.Text.{Str}
use mcstatus_rust.Motd.Parse.{Motd, raw_text, parse}
use mcstatus_rust.Response.Strings.{int}

pub record BedrockStatusResponse (Latency : Type 0) : Type 0 where
  pub online : ℤ
  pub max : ℤ
  pub name : Str
  pub protocol : ℤ
  pub brand : Str
  pub motd : Motd
  pub latency : Latency
  pub map_name : Option Str
  pub gamemode : Option Str

-- `decoded_data[i]`, or none
unfoldable pub get : List Str → ℕ → Option Str
get [] i = none
get (s ∷ ss) zero = some s
get (s ∷ ss) (suc i) = get ss i

-- `decoded_data[i]`, which may raise `IndexError`
abbrev pub index : Option Str → Result Str
index none = err index_error
index (some s) = ok s

-- `BedrockStatusResponse.build`
unfoldable pub build_bedrock :
    {Latency : Type 0}
    → (ℕ → Option ℕ)
    → List Str
    → Latency
    → Result (BedrockStatusResponse Latency)
unfolding get int parse
build_bedrock decimal data_ latency =
    bind_result (bind_result (index (get data_ 4)) (int decimal)) (λ o.
      bind_result (bind_result (index (get data_ 5)) (int decimal)) (λ m.
        bind_result (index (get data_ 3)) (λ n.
          bind_result (bind_result (index (get data_ 2)) (int decimal)) (λ p.
            bind_result (index (get data_ 0)) (λ b.
              bind_result (bind_result (index (get data_ 1)) (λ t. parse decimal true (raw_text t)))
                (λ motd_. ok (record {
                  online = o;
                  max = m;
                  name = n;
                  protocol = p;
                  brand = b;
                  motd = motd_;
                  latency = latency;
                  map_name = get data_ 7;
                  gamemode = get data_ 8;
                })))))))
