-- ===== src/Io/Reader/Stream.antt =====
-- What a reader promises: `read` over the bytes that are still to come. A read beyond the end fails
-- and uses the rest up.
use mcstatus_rust.Prelude.{ℕ, [], length, take, drop, ltb, if◌then◌else◌}
use mcstatus_rust.Prelude.Exec.{Exec, ok, err, os_error}
use mcstatus_rust.Io.Text.{Bytes}
use mcstatus_rust.Io.Reader.{Reader}

unfoldable pub read_stream : ℕ → Exec Bytes Bytes
read_stream n bs = if ltb (length bs) n then (err os_error, []) else (ok (take n bs), drop n bs)

abbrev pub stream : Reader Bytes
stream = record { read = read_stream }
