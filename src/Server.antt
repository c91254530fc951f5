-- ===== src/Server.antt =====
-- mcstatus/server.py: the servers that a user asks. Their timeouts are part of the sockets and of the
-- resolver.
pub mod Requests
pub mod Closes
pub mod Ports
pub mod NoLeak
use mcstatus_rust.Prelude.{ℕ, zero, suc, Option, none, some}
use mcstatus_rust.Prelude.Int.{ℤ, pos, negsuc}
use mcstatus_rust.Prelude.Exec.{Result, ok, bind_result}
use mcstatus_rust.Io.Text.{Str}
use mcstatus_rust.Net.{Libraries, Address, address, parse_address, minecraft_srv_address_lookup}

-- `DEFAULT_PORT` of `BaseJavaServer` and of `BedrockServer`
abbrev pub java_default_port : ℕ
java_default_port = 25565

abbrev pub bedrock_default_port : ℕ
bedrock_default_port = 19132

-- `MCServer.__init__`: a legacy or a Bedrock server is its address.
unfoldable pub init_server : ℕ → Str → Option ℤ → Result Address
init_server default_port host none = address host (pos default_port)
init_server default_port host (some port) = address host port

pub record JavaServer : Type 0 where
  pub address : Address
  pub query_port : ℕ

-- `port or self.DEFAULT_PORT`
abbrev pub port_or_default : Option ℤ → ℤ
port_or_default none = pos java_default_port
port_or_default (some (pos zero)) = pos java_default_port
port_or_default (some (pos (suc n))) = pos (suc n)
port_or_default (some (negsuc n)) = negsuc n

-- What stands for `query_port`.
abbrev pub query_port_of : Option ℤ → Option ℤ → ℤ
query_port_of none port = port_or_default port
query_port_of (some query_port) port = query_port

-- `JavaServer.__init__`: the second address is made to check the port only.
unfoldable pub init_java : Str → Option ℤ → Option ℤ → Result JavaServer
unfolding init_server
init_java host port query_port = bind_result (init_server java_default_port host port) (λ own.
    bind_result (address host (query_port_of query_port port))
      (λ checked. ok (record { address = own; query_port = checked.port })))

module _ (lib : Libraries) where
  -- `MCServer.lookup`, of a Bedrock server
  unfoldable pub lookup_bedrock : Str → Result Address
  unfolding init_server
  lookup_bedrock string =
      bind_result (parse_address lib (some (pos bedrock_default_port)) string)
        (λ addr. init_server bedrock_default_port addr.host (some (pos addr.port)))

  -- `BaseJavaServer.lookup`, of a legacy server
  unfoldable pub lookup_legacy : Str → Result Address
  unfolding init_server
  lookup_legacy string =
      bind_result (minecraft_srv_address_lookup lib (some (pos java_default_port)) string)
        (λ addr. init_server java_default_port addr.host (some (pos addr.port)))

  -- `BaseJavaServer.lookup`, of a Java server
  unfoldable pub lookup_java : Str → Result JavaServer
  unfolding init_java
  lookup_java string =
      bind_result (minecraft_srv_address_lookup lib (some (pos java_default_port)) string)
        (λ addr. init_java addr.host (some (pos addr.port)) none)
