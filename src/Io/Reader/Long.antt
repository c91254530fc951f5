-- ===== src/Io/Reader/Long.antt =====
-- mcstatus/_protocol/io/base_io.py: `read_value` of the formats `l` and `L`.
use mcstatus_rust.Prelude.{◌≤◌, ◌≡◌, arith, ◌==◌, not_ltb, false, length, length-take, take}
use mcstatus_rust.Prelude.Exec.{err, struct_error, ◌>>=◌}
use mcstatus_rust.Io.Text.{Bytes}
use mcstatus_rust.Io.Struct.{unpack, calcsize, standard_size, long, ulong}
use mcstatus_rust.Io.Reader.{read_value}
use mcstatus_rust.Io.Reader.Stream.{stream, read_stream}

-- `calcsize` says 8 bytes and `unpack` wants 4: where 8 bytes are there, the read of a `long` or of a
-- `ulong` raises `struct.error`.
pub read_long_fails :
    (bs : Bytes)
    → 8 ≤ length bs
    → ((read_value stream long bs).0 ≡ err struct_error)
      × ((read_value stream ulong bs).0 ≡ err struct_error)
unfolding read_value calcsize standard_size unpack read_stream ◌>>=◌
read_long_fails bs h =
    let wrong : (length (take 8 bs) == 4) ≡ false = ground (arith, length-take 8 bs) in
    (rw (not_ltb (length bs) 8 h, wrong), rw (not_ltb (length bs) 8 h, wrong))
