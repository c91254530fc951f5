-- ===== src/Server/Ports.antt =====
-- mcstatus/server.py: the addresses and the ports of the servers that are made and looked up.
use mcstatus_rust.Prelude.{ℕ, zero, suc, ◌≤◌, ◌≡◌, refl, ◌∙◌, none, some, arith, not_ltb}
use mcstatus_rust.Prelude.Int.{pos}
use mcstatus_rust.Prelude.Exec.{Result, ok, err, bind_result}
use mcstatus_rust.Io.Text.{Str}
use mcstatus_rust.Net.{Libraries, Address, address, parse_address, minecraft_srv_address_lookup}
use mcstatus_rust.Net.Laws.{parse_address-port, minecraft_srv_address_lookup-range}
use mcstatus_rust.Server.{
  java_default_port, bedrock_default_port, init_server, init_java, lookup_java, lookup_legacy,
  lookup_bedrock,
}

again :
    (host : Str) (port : ℕ)
    → port ≤ 65535
    → address host (pos port) ≡ ok (record { host = host; port = port })
unfolding address
again host port h = rw (not_ltb 65535 port h) refl

-- The query port that a server without one gets.
abbrev pub default_query_port : ℕ → ℕ
default_query_port zero = java_default_port
default_query_port (suc n) = suc n

java_again :
    (a : Address)
    → a.port ≤ 65535
    → init_java a.host (some (pos a.port)) none
      ≡ ok (record { address = a; query_port = default_query_port a.port })
unfolding init_java
java_again a h = at a.host a.port h
  where
    at :
        (host : Str) (port : ℕ)
        → port ≤ 65535
        → init_java host (some (pos port)) none
          ≡ ok (record {
            address = record { host = host; port = port };
            query_port = default_query_port port;
          })
    at host zero h = rw (again host 0 (omega arith), again host 25565 (omega arith)) refl
    at host (suc n) h = rw (again host (suc n) h) refl

remade :
    {A : Type 0} (r : Result Address) (f : Address → Result A) (g : Address → A)
    → ((a : Address) → r ≡ ok a → f a ≡ ok (g a))
    → bind_result r f ≡ bind_result r (λ a. ok (g a))
remade (ok a) f g h = h a refl
remade (err e) f g h = refl

module _ (lib : Libraries) where
  -- A lookup of a server fails only where the lookup of its address does: the constructor accepts each
  -- address that is found, and the query port is the port found, or 25565 in place of 0.
  pub lookup-accepts :
      (string : Str)
      → (lookup_java lib string
          ≡ bind_result
              (minecraft_srv_address_lookup lib (some (pos java_default_port)) string)
              (λ a. ok (record { address = a; query_port = default_query_port a.port })))
        × (lookup_legacy lib string
            ≡ minecraft_srv_address_lookup lib (some (pos java_default_port)) string)
        × (lookup_bedrock lib string ≡ parse_address lib (some (pos bedrock_default_port)) string)
  unfolding lookup_java lookup_legacy lookup_bedrock init_server
  lookup-accepts string = (
    remade _ _ (λ a. record { address = a; query_port = default_query_port a.port })
        (λ a h. java_again a (minecraft_srv_address_lookup-range lib _ string a h)),
    remade _ _ (λ a. a)
          (λ a h. again a.host a.port (minecraft_srv_address_lookup-range lib _ string a h))
        ∙ all_ok _,
    remade _ _ (λ a. a) (λ a h. again a.host a.port (parse_address-port lib _ string a h))
        ∙ all_ok _,
  )
    where
      all_ok : (r : Result Address) → bind_result r (λ a. ok a) ≡ r
      all_ok (ok a) = refl
      all_ok (err e) = refl
