-- ===== src/Response/Legacy.antt =====
-- mcstatus/responses/legacy.py: the response of a server before 1.7.
use mcstatus_rust.Prelude.{ℕ, false, Option, List}
use mcstatus_rust.Prelude.Int.{ℤ}
use mcstatus_rust.Prelude.Exec.{Result, ok, bind_result}
use mcstatus_rust.Io.Text.{Str}
use mcstatus_rust.Motd.Parse.{Motd, raw_text, parse}
use mcstatus_rust.Response.Strings.{int}
use mcstatus_rust.Response.Bedrock.{get, index}

pub record LegacyStatusResponse (Latency : Type 0) : Type 0 where
  pub online : ℤ
  pub max : ℤ
  pub name : Str
  pub protocol : ℤ
  pub motd : Motd
  pub latency : Latency

-- `LegacyStatusResponse.build`
unfoldable pub build_legacy :
    {Latency : Type 0} → (ℕ → Option ℕ) → List Str → Latency → Result (LegacyStatusResponse Latency)
unfolding get int parse
build_legacy decimal data_ latency =
    bind_result (bind_result (index (get data_ 3)) (int decimal)) (λ o.
      bind_result (bind_result (index (get data_ 4)) (int decimal)) (λ m.
        bind_result (index (get data_ 1)) (λ n.
          bind_result (bind_result (index (get data_ 0)) (int decimal)) (λ p.
            bind_result (bind_result (index (get data_ 2)) (λ t. parse decimal false (raw_text t)))
              (λ motd_. ok (record {
                online = o;
                max = m;
                name = n;
                protocol = p;
                motd = motd_;
                latency = latency;
              }))))))
