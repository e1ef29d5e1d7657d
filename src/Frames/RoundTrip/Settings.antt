-- ===== src/Frames/RoundTrip/Settings.antt =====
-- The settings loop of parsePayload on what the encoder's loop wrote.
use grpc_bridge.Prelude.{
  ℕ, suc, ◌+◌, ◌*◌, ◌/◌, ◌%◌, ◌<◌, ◌≡◌, refl, sym, ap, ◌∙◌, Bool, Option, none, some, List, [], ◌∷◌,
  ◌++◌, length, append-nil, arith,
}
use grpc_bridge.Frames.Types.{Settings, no_settings}
use grpc_bridge.Bytes.{ByteReader, byte_reader}
use grpc_bridge.Bytes.Reader.{At, byte_reader-At, read_u16-At, read_u32-At}
use grpc_bridge.Frames.Encode.{flag_value}
use grpc_bridge.Frames.Encode.Payload.{setting_bytes, settings_bytes}
use grpc_bridge.Frames.Parse.{apply_setting, parse_settings}
use grpc_bridge.Errors.{ok}

-- A value that fits 32 bits, where there is one.
abbrev pub FitsU32 : Option ℕ → Type 0
FitsU32 none = Unit {0}
FitsU32 (some v) = v < 4294967296

pub record FitSettings (s : Settings) : Type 0 where
  pub header_table_size : FitsU32 s.header_table_size
  pub max_concurrent_streams : FitsU32 s.max_concurrent_streams
  pub initial_window_size : FitsU32 s.initial_window_size
  pub max_frame_size : FitsU32 s.max_frame_size
  pub max_header_list_size : FitsU32 s.max_header_list_size

-- Settings by id, as both loops see them.
abbrev Entries : Type 0
Entries = List (ℕ × Option ℕ)

abbrev entries : Settings → Entries
entries s =
    (0x1, s.header_table_size)
    ∷ (0x2, flag_value s.enable_push)
    ∷ (0x3, s.max_concurrent_streams)
    ∷ (0x4, s.initial_window_size)
    ∷ (0x5, s.max_frame_size)
    ∷ (0x6, s.max_header_list_size)
    ∷ []

abbrev entry_bytes : Entries → List ℕ
entry_bytes [] = []
entry_bytes ((id, o) ∷ es) = setting_bytes id o ++ entry_bytes es

abbrev entry_count : Entries → ℕ
entry_count [] = 0
entry_count ((id, none) ∷ es) = entry_count es
entry_count ((id, some v) ∷ es) = suc (entry_count es)

abbrev apply_entry : Settings → ℕ → Option ℕ → Settings
apply_entry s id none = s
apply_entry s id (some v) = apply_setting s id v

abbrev apply_entries : Settings → Entries → Settings
apply_entries s [] = s
apply_entries s ((id, o) ∷ es) = apply_entries (apply_entry s id o) es

abbrev FitEntries : Entries → Type 0
FitEntries [] = Unit {0}
FitEntries ((id, o) ∷ es) = (id < 65536) × FitsU32 o × FitEntries es

length-entry_bytes : (es : Entries) → length (entry_bytes es) ≡ 6 * entry_count es
length-entry_bytes [] = refl
length-entry_bytes ((id, none) ∷ es) = length-entry_bytes es
length-entry_bytes ((id, some v) ∷ es) = omega (arith, length-entry_bytes es)

parse_settings-entries :
    (es : Entries) (r : ByteReader) (s : Settings)
    → FitEntries es
    → At r (entry_bytes es)
    → parse_settings (entry_count es) r s ≡ ok (apply_entries s es)
unfolding parse_settings
parse_settings-entries [] r s fits a = refl
parse_settings-entries ((id, none) ∷ es) r s fits a = parse_settings-entries es r s fits.2 a
parse_settings-entries ((id, some v) ∷ es) r s fits a =
    let (r1, p, a1) = read_u16-At r (id / 256 % 256) (id % 256) _ a in
    let (r2, q, a2) = read_u32-At r1 v (entry_bytes es) fits.1 a1 in
    let whole : id / 256 % 256 * 256 + id % 256 ≡ id = omega (arith, fits.0) in
    rw (p, q, whole) (parse_settings-entries es r2 (apply_setting s id v) fits.2 a2)

-- The six ids set six different fields.
apply_entries-fields :
    (a : Option ℕ) (b : Option Bool) (c d e f : Option ℕ)
    → let s : Settings = record {
      header_table_size = a;
      enable_push = b;
      max_concurrent_streams = c;
      initial_window_size = d;
      max_frame_size = e;
      max_header_list_size = f;
    } in
      apply_entries no_settings (entries s) ≡ s
unfolding flag_value apply_setting
apply_entries-fields a b c d e f = ground arith

entries-FitEntries : (s : Settings) → FitSettings s → FitEntries (entries s)
unfolding flag_value
entries-FitEntries s f = ground arith

pub parse_settings-settings_bytes :
    (s : Settings)
    → FitSettings s
    → (length (settings_bytes s) % 6 ≡ 0)
      × (parse_settings (length (settings_bytes s) / 6) (byte_reader (settings_bytes s)) no_settings
          ≡ ok s)
parse_settings-settings_bytes s f =
    let bytes : entry_bytes (entries s) ≡ settings_bytes s = simp append-nil in
    let size : length (settings_bytes s) ≡ 6 * entry_count (entries s) =
      ap length (sym bytes) ∙ length-entry_bytes (entries s) in
    let rounds : length (settings_bytes s) / 6 ≡ entry_count (entries s) = omega arith in
    (
      omega arith,
      rw rounds (
          parse_settings-entries (entries s) (byte_reader (settings_bytes s)) no_settings
            (entries-FitEntries s f) (rw bytes (byte_reader-At (settings_bytes s)))
          ∙ ap ok (
              apply_entries-fields s.header_table_size s.enable_push s.max_concurrent_streams
                s.initial_window_size s.max_frame_size s.max_header_list_size)),
    )
