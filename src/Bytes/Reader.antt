-- ===== src/Bytes/Reader.antt =====
-- The reader as its client sees it: the bytes that are still to be read.
use grpc_bridge.Prelude.{
  ℕ, zero, suc, ◌+◌, ◌*◌, ◌≤◌, ◌<◌, ◌≡◌, refl, sym, ap, none, some, List, [], ◌∷◌, ◌++◌, length,
  drop, get_elem?, length-append, take-append_eq, length_at, drop_past, arith,
}
use grpc_bridge.Bytes.{
  ByteReader, byte_reader, peek, read_u8, read_u16, read_u32, read_bytes, remaining,
}
use grpc_bridge.Errors.{ok, err, range_error}
use grpc_bridge.Bytes.Written.{u32_bytes}

-- `rest` is what the reader has before it.
pub record At (r : ByteReader) (rest : List ℕ) : Type 0 where
  pub inside : r.cursor ≤ length r.buf
  pub before : drop r.cursor r.buf ≡ rest

pub byte_reader-At : (buf : List ℕ) → At (byte_reader buf) buf
unfolding byte_reader
byte_reader-At buf = record { inside = omega arith; before = refl }

pub remaining-At : (r : ByteReader) (rest : List ℕ) → At r rest → remaining r ≡ length rest
unfolding remaining
remaining-At r rest a = omega (arith, length_at r.cursor r.buf rest a.inside a.before, a.inside)

-- A read of `n` bytes leaves the reader before what follows them.
advance :
    (r : ByteReader) (n : ℕ) (xs rest : List ℕ)
    → At r (xs ++ rest)
    → length xs ≡ n
    → At (record r { cursor = r.cursor + n }) rest
advance r n xs rest a h = record {
  inside =
      omega (arith, length_at r.cursor r.buf (xs ++ rest) a.inside a.before, length-append xs rest);
  before = drop_past r.cursor n r.buf xs rest a.before h;
}

get_elem?-drop :
    (n : ℕ) (xs : List ℕ) {b : ℕ} {rest : List ℕ} → drop n xs ≡ b ∷ rest → get_elem? xs n ≡ some b
get_elem?-drop zero [] e = cc
get_elem?-drop zero (x ∷ xs) e = cc
get_elem?-drop (suc n) [] e = cc
get_elem?-drop (suc n) (x ∷ xs) e = get_elem?-drop n xs e

get_elem?-drop_end : (n : ℕ) (xs : List ℕ) → drop n xs ≡ [] → get_elem? xs n ≡ none
get_elem?-drop_end zero [] e = refl
get_elem?-drop_end zero (x ∷ xs) e = cc
get_elem?-drop_end (suc n) [] e = refl
get_elem?-drop_end (suc n) (x ∷ xs) e = get_elem?-drop_end n xs e

module _ (r : ByteReader) where
  pub peek-At : (b : ℕ) (rest : List ℕ) → At r (b ∷ rest) → peek r ≡ ok b
  unfolding peek
  peek-At b rest a = rw (get_elem?-drop r.cursor r.buf a.before, peek)

  pub peek_end : At r [] → peek r ≡ err range_error
  unfolding peek
  peek_end a = rw (get_elem?-drop_end r.cursor r.buf a.before, peek)

  pub read_u8-At :
      (b : ℕ) (rest : List ℕ)
      → At r (b ∷ rest)
      → (r' : ByteReader) × (read_u8 r ≡ ok (b, r')) × At r' rest
  unfolding read_u8
  read_u8-At b rest a =
      (record r { cursor = r.cursor + 1 }, rw (peek-At b rest a), advance r 1 (b ∷ []) rest a refl)

  pub read_u8_end : At r [] → read_u8 r ≡ err range_error
  unfolding read_u8
  read_u8_end a = rw (peek_end a)

  pub read_u16-At :
      (a b : ℕ) (rest : List ℕ)
      → At r (a ∷ b ∷ rest)
      → (r' : ByteReader) × (read_u16 r ≡ ok (a * 256 + b, r')) × At r' rest
  unfolding read_u16
  read_u16-At a b rest h = (
    record r { cursor = r.cursor + 2 },
    rw (h.before, read_u16),
    advance r 2 (a ∷ b ∷ []) rest h refl,
  )

  pub read_u32-At :
      (n : ℕ) (rest : List ℕ)
      → n < 4294967296
      → At r (u32_bytes n ++ rest)
      → (r' : ByteReader) × (read_u32 r ≡ ok (n, r')) × At r' rest
  unfolding read_u32
  read_u32-At n rest small h = (
    record r { cursor = r.cursor + 4 },
    rw (h.before, read_u32)
        (ap (λ (k : ℕ). ok (k, record r { cursor = r.cursor + 4 })) (omega arith)),
    advance r 4 (u32_bytes n) rest h refl,
  )

  pub read_bytes-At :
      (n : ℕ) (xs rest : List ℕ)
      → length xs ≡ n
      → At r (xs ++ rest)
      → (r' : ByteReader) × (read_bytes n r ≡ ok (xs, r')) × At r' rest
  unfolding read_bytes
  read_bytes-At n xs rest e h = (
    record r { cursor = r.cursor + n },
    rw (h.before) (
        ap (λ (x : List ℕ). ok (x, record r { cursor = r.cursor + n }))
          (take-append_eq n xs rest (sym e))),
    advance r n xs rest h e,
  )
