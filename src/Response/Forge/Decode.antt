-- ===== src/Response/Forge/Decode.antt =====
-- mcstatus/responses/forge.py: the classes `ForgeDataChannel`, `ForgeDataMod` and `ForgeData`.
use mcstatus_rust.Prelude.{
  ℕ, zero, suc, ◌/◌, ◌%◌, Bool, true, false, Option, none, some, List, [], ◌∷◌, ◌++◌, codes, ◌==◌,
  if◌then◌else◌,
}
use mcstatus_rust.Prelude.Int.{ℤ, pos, negsuc, pos_part}
use mcstatus_rust.Prelude.Exec.{
  Exc, Exec, Result, ok, err, os_error, key_error, pure, raise, catch, bind_result, ◌>>=◌, ◌>>◌,
}
use mcstatus_rust.Io.Text.{Str}
use mcstatus_rust.Io.Struct.{ushort}
use mcstatus_rust.Io.Reader.{Reader, read_bool, read_utf, read_value, read_varint}
use mcstatus_rust.Io.Buffer.{Buffer, buffer_reader}
use mcstatus_rust.Response.Forge.Optimized.{decode_optimized}
use mcstatus_rust.Utils.{or_none}

pub record ForgeDataChannel : Type 0 where
  pub name : Str
  pub version : Str
  pub required : Bool

pub record ForgeDataMod : Type 0 where
  pub name : Str
  pub marker : Str

pub record ForgeData : Type 0 where
  pub fml_network_version : ℤ
  pub channels : List ForgeDataChannel
  pub mods : List ForgeDataMod
  pub truncated : Bool

-- The raw dicts: a key that may be missing is an option.
pub record RawForgeDataChannel : Type 0 where
  pub res : Option Str
  pub version : Option Str
  pub required : Option Bool

pub record RawForgeDataMod : Type 0 where
  pub modid : Option Str
  pub mod_id : Option Str
  pub modmarker : Option Str
  pub version : Option Str

pub record RawForgeData : Type 0 where
  pub fml_network_version : Option ℤ
  pub channels : Option (List RawForgeDataChannel)
  pub mods : Option (List RawForgeDataMod)
  pub mod_list : Option (List RawForgeDataMod)
  pub d : Option Str

-- `raw[key]`
abbrev item : {A : Type 0} → Option A → Result A
item none = err key_error
item (some a) = ok a

-- A list comprehension whose element may raise.
unfoldable each : {A B : Type 0} → (A → Result B) → List A → Result (List B)
each f [] = ok []
each f (a ∷ rest) = bind_result (f a) (λ b. bind_result (each f rest) (λ bs. ok (b ∷ bs)))

-- `ForgeDataChannel.build`
unfoldable pub build_channel : RawForgeDataChannel → Result ForgeDataChannel
build_channel raw = bind_result (item raw.res) (λ n. bind_result (item raw.version) (λ v.
    bind_result (item raw.required) (λ r. ok (record { name = n; version = v; required = r }))))

-- `ForgeDataMod.build`
unfoldable pub build_mod : RawForgeDataMod → Result ForgeDataMod
unfolding or_none
build_mod raw = bind_result (item (or_none (raw.modmarker ∷ raw.version ∷ []))) (λ v.
    bind_result (item (or_none (raw.modid ∷ raw.mod_id ∷ [])))
      (λ i. ok (record { name = i; marker = v })))

-- `_VERSION_FLAG_IGNORE_SERVER_ONLY` is the lowest bit, and the rest is the count of channels; a
-- count below 0 is an empty range.
unfoldable pub lowest_bit : ℤ → Bool
lowest_bit (pos n) = n % 2 == 1
lowest_bit (negsuc n) = n % 2 == 0

unfoldable pub channel_count : ℤ → ℕ
channel_count flags = pos_part flags / 2

-- `_IGNORE_SERVER_ONLY`
abbrev pub ignore_server_only : Str
ignore_server_only = codes "<not required for client>"

module _ {S : Type 0} (r : Reader S) where
  -- `ForgeDataChannel.decode`
  unfoldable pub decode_channel : Option Str → Exec S ForgeDataChannel
  decode_channel mod_id = do
    identifier ← read_utf r
    v ← read_utf r
    client_required ← read_bool r
    pure (record {
      name = elim mod_id [ none ↦ identifier | some i ↦ i ++ b':' ∷ identifier ];
      version = v;
      required = client_required;
    })

  unfoldable pub decode_channels : ℕ → Option Str → Exec S (List ForgeDataChannel)
  decode_channels zero mod_id = pure []
  decode_channels (suc n) mod_id = do
    channel ← decode_channel mod_id
    rest ← decode_channels n mod_id
    pure (channel ∷ rest)

  -- `ForgeDataMod.decode`
  unfoldable pub decode_mod : Exec S (ForgeDataMod × List ForgeDataChannel)
  unfolding decode_channels
  decode_mod = do
    flags ← read_varint r
    mod_id ← read_utf r
    mod_version ← if lowest_bit flags then pure ignore_server_only else read_utf r
    channels ← decode_channels (channel_count flags) (some mod_id)
    pure (record { name = mod_id; marker = mod_version }, channels)

-- The locals of `ForgeData.build` that outlive an `OSError`: the buffer and the two lists.
pub record Partial : Type 0 where
  pub buffer : Buffer
  pub channels : List ForgeDataChannel
  pub mods : List ForgeDataMod

abbrev with_buffer : {A : Type 0} → Partial → Result A × Buffer → Result A × Partial
with_buffer p (res, b) = (res, record p { buffer = b })

unfoldable pub on_buffer : {A : Type 0} → Exec Buffer A → Exec Partial A
on_buffer m p = with_buffer p (m p.buffer)

abbrev add_mod : ForgeDataMod × List ForgeDataChannel → Exec Partial (Unit {0})
add_mod (m, cs) p = (ok tt, record p { channels = p.channels ++ cs; mods = p.mods ++ m ∷ [] })

abbrev add_channel : ForgeDataChannel → Exec Partial (Unit {0})
add_channel c p = (ok tt, record p { channels = p.channels ++ c ∷ [] })

-- The loop over the mods.
unfoldable pub mods_loop : ℕ → Exec Partial (Unit {0})
unfolding on_buffer
mods_loop zero = pure tt
mods_loop (suc n) = do m ← on_buffer (decode_mod buffer_reader); add_mod m; mods_loop n

-- `channels.extend` of the generator, which adds a channel as soon as it is decoded.
unfoldable pub channels_loop : ℕ → Exec Partial (Unit {0})
unfolding on_buffer
channels_loop zero = pure tt
channels_loop (suc n) = do
  c ← on_buffer (decode_channel buffer_reader none)
  add_channel c
  channels_loop n

-- What stands under `try`.
unfoldable pub decode_all : ℕ → Exec Partial (Unit {0})
unfolding mods_loop channels_loop
decode_all mod_count = do
  mods_loop mod_count
  n ← on_buffer (read_varint buffer_reader)
  channels_loop (pos_part n)

-- `except OSError`
abbrev forgive : Bool → Exc → Exec Partial (Unit {0})
forgive true os_error = pure tt
forgive truncated e = raise e

abbrev to_data : ℤ → Bool → Result (Unit {0}) × Partial → Result ForgeData
to_data version truncated (ok u, p) = ok (record {
  fml_network_version = version;
  channels = p.channels;
  mods = p.mods;
  truncated = truncated;
})
to_data version truncated (err e, p) = err e

-- `build` after the two values of the header.
unfoldable pub after_header : ℤ → Result (Bool × ℕ) × Buffer → Result ForgeData
unfolding decode_all
after_header version (ok (t, n), b) =
    to_data version t
      (catch (decode_all n) (forgive t) (record { buffer = b; channels = []; mods = [] }))
after_header version (err e, b) = err e

unfoldable pub read_header : Exec Buffer (Bool × ℕ)
read_header = do
  t ← read_bool buffer_reader
  n ← read_value buffer_reader ushort
  pure (t, pos_part n)

-- `build` from the decoded buffer on.
unfoldable pub build_decoded : ℤ → Buffer → Result ForgeData
unfolding after_header read_header
build_decoded version buffer = after_header version (read_header buffer)

-- `raw.get("mods") or raw.get("modList")`: an empty list counts as no list.
unfoldable pub mods_of : RawForgeData → Option (List RawForgeDataMod)
mods_of raw = elim raw.mods [
  | none ↦ raw.mod_list
  | some ms ↦ elim ms [ [] ↦ raw.mod_list | m ∷ t ↦ some (m ∷ t) ]
]

abbrev or_else : {A : Type 0} → A → Option A → A
or_else a none = a
or_else a (some b) = b

-- `ForgeData.build`
unfoldable pub build : RawForgeData → Result ForgeData
unfolding mods_of each build_channel build_mod
build raw =
    let version = or_else (pos 1) raw.fml_network_version in
    elim raw.d [
      | none ↦ bind_result (item (mods_of raw)) (λ ms.
          bind_result (each build_channel (or_else [] raw.channels)) (λ cs.
            bind_result (each build_mod ms) (λ built. ok (record {
              fml_network_version = version;
              channels = cs;
              mods = built;
              truncated = false;
            }))))
      | some d ↦ bind_result (decode_optimized d) (build_decoded version)
    ]
