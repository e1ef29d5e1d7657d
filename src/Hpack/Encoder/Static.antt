-- ===== src/Hpack/Encoder/Static.antt =====
-- web/src/h2/hpack/hpack.ts: what the maps of the static table find.
use mathlib.Core.Path.{subst}
use grpc_bridge.Prelude.{
  ℕ, zero, suc, ◌+◌, ◌-◌, ◌≤◌, ◌<◌, ◌≡◌, refl, sym, ap, ◌∙◌, inl, inr, Bool, true, false, ◌&&◌,
  none, some, List, [], ◌∷◌, ◌++◌, length, get_elem?, leb, ◌==◌, if◌then◌else◌, not, Bool-cases,
  Option-cases, arith,
}
use grpc_bridge.Errors.{ok}
use grpc_bridge.Text.{Text, text_eq, text_eq_lem}
use grpc_bridge.Hpack.StaticTable.{HeaderEntry, static_table, static_table_length}
use grpc_bridge.Hpack.Table.{HpackDecoder, entry_at}
use grpc_bridge.Hpack.Encoder.{find_name, find_pair}

-- The place of an entry in a table that is counted from `index`.
pub record Found (entries : List HeaderEntry) (index found : ℕ) (entry : HeaderEntry) : Type 0 where
  pub low : index ≤ found
  pub high : found < index + length entries
  pub here : get_elem? entries (found - index) ≡ some entry

Found-next :
    (first : HeaderEntry) (entries : List HeaderEntry) (index found : ℕ) (entry : HeaderEntry)
    → Found entries (suc index) found entry
    → Found (first ∷ entries) index found entry
Found-next first entries index found entry f = record {
  low = omega (arith, f.low);
  high = omega (arith, f.high);
  here =
      let e : found - index ≡ suc (found - suc index) = omega (arith, f.low) in
      ap (get_elem? (first ∷ entries)) e ∙ f.here;
}

Found-first :
    (entry : HeaderEntry) (entries : List HeaderEntry) (index : ℕ)
    → Found (entry ∷ entries) index index entry
Found-first entry entries index = record {
  low = omega arith;
  high = omega arith;
  here = let e : index - index ≡ 0 = omega arith in ap (get_elem? (entry ∷ entries)) e;
}

pub find_name-Found :
    (name : Text) (entries : List HeaderEntry) (index found : ℕ)
    → find_name name entries index ≡ some found
    → (value : Text) × Found entries index found (name, value)
unfolding find_name
find_name-Found name [] index found e = absurd (ground arith)
find_name-Found name ((n, v) ∷ entries) index found e = elim (Bool-cases (text_eq name n)) [
  | inl same ↦
      let at : index ≡ found = ground arith in
      (
        v,
        subst (λ (k : ℕ). Found ((n, v) ∷ entries) index k (name, v)) at
            (subst (λ (x : Text). Found ((n, v) ∷ entries) index index (x, v))
              (sym (text_eq_lem name n same)) (Found-first (n, v) entries index)),
      )
  | inr other ↦
      let (value, f) = find_name-Found name entries (suc index) found (ground arith) in
      (value, Found-next (n, v) entries index found (name, value) f)
]

chosen :
    (b : Bool) (index found : ℕ)
    → (if b then some index else none) ≡ some found
    → (b ≡ true) × (index ≡ found)
chosen true index found e = (refl, ground arith)
chosen false index found e = absurd (ground arith)

-- The key of an entry.
pub find_pair-Found :
    (key : Text) (entries : List HeaderEntry) (index found : ℕ)
    → find_pair key entries index ≡ some found
    → (entry : HeaderEntry) × (key ≡ entry.0 ++ 0 ∷ entry.1) × Found entries index found entry
unfolding find_pair
find_pair-Found key [] index found e = absurd (ground arith)
find_pair-Found key ((n, v) ∷ entries) index found e =
    elim (Option-cases (find_pair key entries (suc index))) [
      | inr (later, l) ↦
          let same : later ≡ found = ground arith in
          let (entry, whole, f) =
            find_pair-Found key entries (suc index) found (l ∙ ap some same) in
          (entry, whole, Found-next (n, v) entries index found entry f)
      | inl nothing ↦
          let here : (if text_eq key (n ++ 0 ∷ v) then some index else none) ≡ some found =
            rw (nothing, find_pair) at e in
          let (same, at) = chosen (text_eq key (n ++ 0 ∷ v)) index found here in
          (
            (n, v),
            text_eq_lem key (n ++ 0 ∷ v) same,
            subst (λ (k : ℕ). Found ((n, v) ∷ entries) index k (n, v)) at
                (Found-first (n, v) entries index),
          )
    ]

-- Names in the table, and names of headers that are sent, have no NUL, so the key tells name and value.
abbrev pub no_nul : Text → Bool
no_nul [] = true
no_nul (u ∷ s) = not (u == 0) && no_nul s

key_parts :
    (n v name value : Text)
    → no_nul n ≡ true
    → no_nul name ≡ true
    → name ++ 0 ∷ value ≡ n ++ 0 ∷ v
    → (n ≡ name) × (v ≡ value)
key_parts [] v [] value a b e = (refl, ground arith)
key_parts [] v (u ∷ name) value a b e = absurd (ground arith)
key_parts (u ∷ n) v [] value a b e = absurd (ground arith)
key_parts (u ∷ n) v (u' ∷ name) value a b e =
    let (same, values) = key_parts n v name value (ground arith) (ground arith) (ground arith) in
    (ground arith, values)

abbrev all_names : List HeaderEntry → Bool
all_names [] = true
all_names ((n, v) ∷ entries) = no_nul n && all_names entries

static_names : all_names static_table ≡ true
unfolding static_table
static_names = refl

table_length : length static_table ≡ static_table_length
unfolding static_table
table_length = refl

within_table :
    (i : ℕ) (entry : HeaderEntry) → Found static_table 1 i entry → i ≤ static_table_length
within_table i entry f = omega (arith, f.high, table_length)

name_of_entry :
    (entries : List HeaderEntry) (i : ℕ) (entry : HeaderEntry)
    → all_names entries ≡ true
    → get_elem? entries i ≡ some entry
    → no_nul entry.0 ≡ true
name_of_entry [] i entry h e = absurd (ground arith)
name_of_entry ((n, v) ∷ entries) zero entry h e = ground arith
name_of_entry ((n, v) ∷ entries) (suc i) entry h e = name_of_entry entries i entry (ground arith) e

module _ (d : HpackDecoder) where
  static_entry :
      (i : ℕ) (entry : HeaderEntry) → Found static_table 1 i entry → entry_at d i ≡ ok entry
  unfolding entry_at
  static_entry i entry f =
      let low : leb 1 i ≡ true = ground arith in
      let high : leb i static_table_length ≡ true = ground (arith, within_table i entry f) in
      rw (low, high, f.here)

  -- An index of the pair map stands for the header, one of the name map for its name.
  pub entry_at-find_pair :
      (name value : Text) (i : ℕ)
      → no_nul name ≡ true
      → find_pair (name ++ 0 ∷ value) static_table 1 ≡ some i
      → (entry_at d i ≡ ok (name, value)) × (1 ≤ i) × (i ≤ static_table_length)
  entry_at-find_pair name value i h e =
      let ((n, v), key, f) = find_pair-Found (name ++ 0 ∷ value) static_table 1 i e in
      let (names, values) =
        key_parts n v name value (name_of_entry static_table (i - 1) (n, v) static_names f.here) h
          key in
      (
        static_entry i (n, v) f
            ∙ ap (λ (x : Text). ok (x, v)) names
            ∙ ap (λ (x : Text). ok (name, x)) values,
        f.low,
        within_table i (n, v) f,
      )

  pub entry_at-find_name :
      (name : Text) (i : ℕ)
      → find_name name static_table 1 ≡ some i
      → (value : Text) × (entry_at d i ≡ ok (name, value)) × (1 ≤ i) × (i ≤ static_table_length)
  entry_at-find_name name i e =
      let (value, f) = find_name-Found name static_table 1 i e in
      (value, static_entry i (name, value) f, f.low, within_table i (name, value) f)
