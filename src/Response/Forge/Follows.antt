-- ===== src/Response/Forge/Follows.antt =====
-- mcstatus/responses/forge.py: decoding over a buffer, and over the stream of its unread bytes.
use mcstatus_rust.Prelude.{ℕ, zero, suc, ◌≡◌, refl, ap, sym, ◌∙◌, Option, some, List, [], ◌∷◌}
use mcstatus_rust.Prelude.Exec.{
  Exec, Result, Simulates, Simulates-bind, Simulates-if, Simulates-pure,
}
use mcstatus_rust.Io.Text.{Str, Bytes}
use mcstatus_rust.Io.Reader.Stream.{stream}
use mcstatus_rust.Io.Reader.Refine.{sim-read_utf, sim-read_varint, sim-read_bool}
use mcstatus_rust.Io.Buffer.{Buffer, unread_view, buffer_reader}
use mcstatus_rust.Io.Buffer.Laws.{IsValid, buffer-IsReader}
use mcstatus_rust.Response.Forge.Decode.{
  ForgeDataChannel, ForgeDataMod, decode_channel, decode_channels, decode_mod, lowest_bit,
  channel_count, ignore_server_only, Partial, on_buffer,
}

pub sim-decode_channel :
    (o : Option Str)
    → Simulates IsValid unread_view (decode_channel buffer_reader o) (decode_channel stream o)
unfolding decode_channel
sim-decode_channel o = Simulates-bind _ _ _ _ (sim-read_utf buffer-IsReader) (λ i.
    Simulates-bind _ _ _ _ (sim-read_utf buffer-IsReader)
      (λ v. Simulates-bind _ _ _ _ (sim-read_bool buffer-IsReader) (λ r. Simulates-pure _)))

sim-decode_channels :
    (n : ℕ) (o : Option Str)
    → Simulates IsValid unread_view (decode_channels buffer_reader n o) (decode_channels stream n o)
unfolding decode_channels
sim-decode_channels zero o = Simulates-pure []
sim-decode_channels (suc n) o =
    Simulates-bind _ _ _ _ (sim-decode_channel o)
      (λ c. Simulates-bind _ _ _ _ (sim-decode_channels n o) (λ cs. Simulates-pure (c ∷ cs)))

pub sim-decode_mod : Simulates IsValid unread_view (decode_mod buffer_reader) (decode_mod stream)
unfolding decode_mod
sim-decode_mod = Simulates-bind _ _ _ _ (sim-read_varint buffer-IsReader) (λ flags.
    Simulates-bind _ _ _ _ (sim-read_utf buffer-IsReader) (λ i.
      Simulates-bind _ _ _ _
        (Simulates-if (lowest_bit flags) _ _ _ _ (Simulates-pure ignore_server_only)
          (sim-read_utf buffer-IsReader))
        (λ v.
          Simulates-bind _ _ _ _ (sim-decode_channels (channel_count flags) (some i))
            (λ cs. Simulates-pure _))))

-- What a reader over the stream of the unread bytes gives, the one over the buffer gives, and leaves as
-- much unread.
pub follows :
    {A : Type 0} (m : Exec Buffer A) (m' : Exec Bytes A) (b : Buffer) (r : Result A) (rest : Bytes)
    → Simulates IsValid unread_view m m'
    → IsValid b
    → m' (unread_view b) ≡ (r, rest)
    → (b' : Buffer) × (m b ≡ (r, b')) × (unread_view b' ≡ rest) × IsValid b'
follows m m' b r rest sim h e =
    let run = sym (sim.at b h) ∙ e in
    ((m b).1, ap (λ x. (x, (m b).1)) (ap (λ p. p.0) run), ap (λ p. p.1) run, sim.keeps b h)

-- The locals of `ForgeData.build`.
abbrev pub locals : Buffer → List ForgeDataChannel → List ForgeDataMod → Partial
locals b cs ms = record { buffer = b; channels = cs; mods = ms }

pub on_buffer-eq :
    {A : Type 0} (m : Exec Buffer A) (r : Result A) (b b' : Buffer) (cs : List ForgeDataChannel)
    (ms : List ForgeDataMod)
    → m b ≡ (r, b')
    → on_buffer m (locals b cs ms) ≡ (r, locals b' cs ms)
unfolding on_buffer
on_buffer-eq m r b b' cs ms e = rw e refl
