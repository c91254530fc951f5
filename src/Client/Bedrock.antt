-- ===== src/Client/Bedrock.antt =====
-- mcstatus/_protocol/bedrock_client.py: how the client of a Bedrock server gets its answer.
use mcstatus_rust.Prelude.{ℕ, Option, [], ◌∷◌}
use mcstatus_rust.Prelude.Exec.{Exec, lift, ◌>>=◌, ◌>>◌}
use mcstatus_rust.Io.Text.{Bytes}
use mcstatus_rust.Io.Connection.Socket.{Sockets}
use mcstatus_rust.Net.{Address}
use mcstatus_rust.Client.Legacy.{parse_bedrock}
use mcstatus_rust.Response.Bedrock.{BedrockStatusResponse}

-- `request_status_data`
abbrev pub request_status_data : Bytes
request_status_data =
    0x01 ∷ 0x00 ∷ 0x00 ∷ 0x00 ∷ 0x00 ∷ 0x00 ∷ 0x00 ∷ 0x00 ∷ 0x00 ∷ 0x00 ∷ 0xFF ∷ 0xFF ∷ 0x00 ∷ 0xFE
    ∷ 0xFE ∷ 0xFE ∷ 0xFE ∷ 0xFD ∷ 0xFD ∷ 0xFD ∷ 0xFD ∷ 0x12 ∷ 0x34 ∷ 0x56 ∷ 0x78 ∷ 0x00 ∷ 0x00
    ∷ 0x00 ∷ 0x00 ∷ 0x00 ∷ 0x00 ∷ 0x00 ∷ 0x00 ∷ []

module _ {S Socket : Type 0} (net : Sockets S Socket) (address : Address) where
  -- `_read_status`, which does not call `close`: the socket is closed when Python collects it.
  unfoldable pub receive_status : Exec S Bytes
  receive_status = do
    s ← net.inet_socket
    net.sendto s request_status_data address.host address.port
    net.recvfrom s 2048

  -- `read_status`
  unfoldable pub read_status :
      {Latency : Type 0} → (ℕ → Option ℕ) → Exec S Latency → Exec S (BedrockStatusResponse Latency)
  unfolding receive_status
  read_status decimal clock = do
    answer ← receive_status
    latency ← clock
    lift (parse_bedrock decimal answer latency)
