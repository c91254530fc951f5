-- ===== src/Response/Forge/Header.antt =====
-- mcstatus/responses/forge.py: the header of the Forge data, and what `ForgeData.build` makes of what
-- follows it.
use mcstatus_rust.Prelude.{
  ℕ, ◌≡◌, refl, ap, sym, ◌∙◌, true, false, Bool, List, [], ◌∷◌, ◌++◌, All, append_assoc, append-nil,
  if◌then◌else◌,
}
use mcstatus_rust.Prelude.Int.{ℤ, pos, pos_part}
use mcstatus_rust.Prelude.Exec.{
  Exec, ok, err, os_error, pure, catch, bind_ok, ◌>>=◌, ◌>>◌, Simulates, Simulates-bind,
  Simulates-pure,
}
use mcstatus_rust.Io.Text.{Bytes}
use mcstatus_rust.Io.Reader.Stream.{stream}
use mcstatus_rust.Io.Reader.Refine.{sim-read_bool}
use mcstatus_rust.Io.Reader.RoundTrip.{Carries}
use mcstatus_rust.Io.Buffer.{Buffer, unread_view}
use mcstatus_rust.Io.Buffer.Laws.{IsValid, buffer-IsReader}
use mcstatus_rust.Response.Forge.Decode.{
  ForgeDataChannel, ForgeDataMod, build_decoded, read_header, Partial, mods_loop, decode_all,
  after_header,
}
use mcstatus_rust.Response.Forge.Laws.{encode_channel, encode_channels, IsWireChannel}
use mcstatus_rust.Response.Forge.Follows.{follows, locals}
use mcstatus_rust.Response.Forge.Wire.{wire_channel, channel_wires}
use mcstatus_rust.Io.Writer.{write_bool, write_value}
use mcstatus_rust.Io.Writer.Encode.{sink}
use mcstatus_rust.Io.Struct.{ushort, pack, calcsize, standard_size}
use mcstatus_rust.Io.Reader.{read_bool, read_value}
use mcstatus_rust.Io.Reader.Refine.{sim-read_value}
use mcstatus_rust.Io.Reader.Compose.{bind-Carries, map-Carries, bool-Carries}
use mcstatus_rust.Io.Reader.RoundTrip.{value-Carries}

-- The flag and the number of mods.
abbrev pub encode_header : Bool → ℕ → Exec Bytes (Unit {0})
encode_header truncated mod_count = do
  write_bool sink truncated
  write_value sink ushort (pos mod_count)

abbrev pub stream_header : Exec Bytes (Bool × ℕ)
stream_header = do t ← read_bool stream; n ← read_value stream ushort; pure (t, pos_part n)

sim-read_header : Simulates IsValid unread_view read_header stream_header
unfolding read_header
sim-read_header =
    Simulates-bind _ _ _ _ (sim-read_bool buffer-IsReader)
      (λ t. Simulates-bind _ _ _ _ (sim-read_value buffer-IsReader ushort) (λ n. Simulates-pure _))

ushort_size : calcsize ushort ≡ standard_size ushort
unfolding calcsize standard_size
ushort_size = refl

pub header-Carries :
    (t : Bool) (n : ℕ) {raw : Bytes}
    → pack ushort (pos n) ≡ ok raw
    → Carries (encode_header t n) stream_header (t, n)
header-Carries t n h =
    bind-Carries _ _ _ _ (bool-Carries t)
      (map-Carries _ _ (λ z. (t, pos_part z)) (value-Carries ushort (pos n) h ushort_size))

-- `m` adds `wire` to the output.
abbrev pub Appends : Exec Bytes (Unit {0}) → Bytes → Type 0
Appends m wire = (out : Bytes) → m out ≡ (ok tt, out ++ wire)

pub Appends-bind :
    (m n : Exec Bytes (Unit {0})) (v w : Bytes)
    → Appends m v
    → Appends n w
    → Appends (m >> n) (v ++ w)
Appends-bind m n v w h k out =
    bind_ok m (λ _. n) out (h out) ∙ k (out ++ v) ∙ ap (λ x. (ok tt, x)) (append_assoc out v w)

pub Appends-eq : (m : Exec Bytes (Unit {0})) (v w : Bytes) → Appends m v → m [] ≡ (ok tt, w) → v ≡ w
Appends-eq m v w h e = ap (λ p. p.1) (sym (h []) ∙ e)

pub encode_channels-Appends :
    (cs : List ForgeDataChannel) (h : All IsWireChannel cs)
    → Appends (encode_channels cs) (channel_wires cs h)
encode_channels-Appends [] h = λ out. unfold ◌>>=◌ in ap (λ w. (ok tt, w)) (sym (append-nil out))
encode_channels-Appends (c ∷ cs) (h, hs) =
    Appends-bind (encode_channel c) (encode_channels cs) (wire_channel c h).wire
      (channel_wires cs hs) (wire_channel c h).writes (encode_channels-Appends cs hs)

-- What comes of the header, and of what follows it.
pub behind_header :
    (version : ℤ) (t : Bool) (n : ℕ) {raw : Bytes} (b : Buffer) (rest : Bytes)
    (p : pack ushort (pos n) ≡ ok raw)
    → IsValid b
    → unread_view b ≡ (header-Carries t n p).wire ++ rest
    → (b' : Buffer) × (unread_view b' ≡ rest)
      × IsValid b'
      × (build_decoded version b ≡ after_header version (ok (t, n), b'))
unfolding build_decoded
behind_header version t n b rest p v u =
    let (b', run, u', v') =
      follows read_header stream_header b _ _ sim-read_header v
        (ap stream_header u ∙ (header-Carries t n p).reads rest) in
    (b', u', v', ap (after_header version) run)

-- An `OSError` behind the header.
pub forgiven :
    (version : ℤ) (t : Bool) (n : ℕ) (b b' : Buffer) (cs : List ForgeDataChannel)
    (ms : List ForgeDataMod)
    → decode_all n (locals b [] []) ≡ (err os_error, locals b' cs ms)
    → after_header version (ok (t, n), b) ≡ (
        if t
        then ok
            (record { fml_network_version = version; channels = cs; mods = ms; truncated = true })
        else err os_error)
unfolding after_header catch ◌>>=◌
forgiven version true n b b' cs ms h = rw h refl
forgiven version false n b b' cs ms h = rw h refl

pub mods_done : (p : Partial) → mods_loop 0 p ≡ (ok tt, p)
unfolding mods_loop ◌>>=◌
mods_done p = refl

pub completed :
    (version : ℤ) (t : Bool) (n : ℕ) (b b' : Buffer) (cs : List ForgeDataChannel)
    (ms : List ForgeDataMod)
    → decode_all n (locals b [] []) ≡ (ok tt, locals b' cs ms)
    → after_header version (ok (t, n), b)
      ≡ ok (record { fml_network_version = version; channels = cs; mods = ms; truncated = t })
unfolding after_header catch
completed version t n b b' cs ms h = rw h refl
