-- ===== src/Tests/Network.antt =====
-- Retries, addresses and the ping at concrete inputs.
use mcstatus_rust.Prelude.{
  arith, ℕ, suc, ◌+◌, ◌≤◌, ◌≡◌, refl, List, [], ◌∷◌, Bool, true, false, Option, none, some, ltb,
  length, if◌then◌else◌,
}
use mcstatus_rust.Prelude.Int.{pos}
use mcstatus_rust.Prelude.Exec.{Exc, Exec, ok, err, os_error, nx_domain}
use mcstatus_rust.Io.Struct.{pack, is_signed, standard_size, to_be}
use mcstatus_rust.Io.Writer.Encode.{sink}
use mcstatus_rust.Utils.{retry}
use mcstatus_rust.Utils.Laws.{state_after, retry_first_end, retry_exhausted}
use mcstatus_rust.Net.{Libraries, Address, Cached, valid_urlparse, parse_address}
use mcstatus_rust.Net.Laws.{parse_address-port}
use mcstatus_rust.Io.Text.{utf8_encode, utf8_char}
use mcstatus_rust.Io.Reader.RoundTrip.{Carries}
use mcstatus_rust.Io.Reader.Compose.{IsWireText}
use mcstatus_rust.Client.Java.{build_handshake_packet}
use mcstatus_rust.Client.Java.Laws.{read_handshake, build_handshake_packet-Carries}

-- Two attempts fail, and the third gives their number.
abbrev third_time : Exec ℕ ℕ
third_time n = (if ltb n 2 then err os_error else ok n, n + 1)

abbrev any : Exc → Bool
any e = true

retry_first_end_example :
    retry any (2 + suc 0) third_time 0 ≡ third_time (state_after any third_time 2 0)
retry_first_end_example =
    retry_first_end any third_time 2 0 0 ((os_error, refl, refl), ((os_error, refl, refl), tt)) tt

retry_exhausted_example : retry any 2 third_time 0 ≡ third_time (state_after any third_time 1 0)
retry_exhausted_example =
    retry_exhausted any third_time 1 0 ((os_error, refl, refl), ((os_error, refl, refl), tt))

abbrev before : List (Option ℕ)
before = none ∷ []

-- A network of one host, `h`, without SRV records.
abbrev pub libraries : Libraries
libraries = record {
  Ip = ℕ;
  urlparse = λ s. ok (some (b'h' ∷ []), if ltb 3 (length s) then some 25565 else none);
  ip_address = λ s. if ltb 3 (length s) then some 1 else none;
  resolve_a = λ s. ok (b'1' ∷ b'0' ∷ b'.' ∷ b'1' ∷ []);
  resolve_srv = λ s. err nx_domain;
  darwin = false;
}

host_only : valid_urlparse libraries (b'h' ∷ []) ≡ ok (b'h' ∷ [], none)
unfolding valid_urlparse
host_only = refl

abbrev pub home : Address
home = record { host = b'h' ∷ []; port = 25565 }

parse_address-port_example : home.port ≤ 65535
unfolding parse_address
parse_address-port_example =
    parse_address-port libraries none (b'h' ∷ b':' ∷ b'9' ∷ b'9' ∷ []) home refl

abbrev pub unresolved : Cached ℕ
unresolved = record { address = home; cached_ip = none }

home_encodes : utf8_encode home.host ≡ ok home.host
unfolding utf8_encode utf8_char
home_encodes = refl

home-IsWireText : IsWireText home.host
home-IsWireText = record {
  code_points = (omega arith, tt);
  encoded = home.host;
  encodes = home_encodes;
  short_enough = omega arith;
}

build_handshake_packet-Carries_example :
    Carries
      (build_handshake_packet sink (pos 47) home)
      read_handshake
      (pos 0, pos 47, home.host, pos home.port, pos 1)
unfolding pack is_signed standard_size to_be
build_handshake_packet-Carries_example =
    build_handshake_packet-Carries (pos 47) home {raw = 0x63 ∷ 0xDD ∷ []} (omega arith)
      home-IsWireText refl
