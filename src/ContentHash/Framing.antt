-- ===== src/ContentHash/Framing.antt =====
-- The frames are unambiguous: a preimage can be read back.
use dag_ml_data.Common.{
  ℕ, zero, suc, ◌+◌, ◌*◌, ◌^◌, ◌/◌, ◌<◌, ◌≡◌, refl, List, [], ◌∷◌, ◌++◌, append_assoc, Option, none,
  some, arith, length, All,
}
use native.Mathlib.Nat.{pow-suc}
use dag_ml_data.ContentHash.{absorb_str_collection, Hasher, Sha256, to_le_bytes, framed}
use dag_ml_data.ContentHash.Stream.{
  absorb_str_collection_lem, str_frame, str_frames, collection_frame,
}

-- Readers of the frames: what is read and the rest.
pub read_le : ℕ → List ℕ → Option (ℕ × List ℕ)
read_le zero bytes = some (0, bytes)
read_le (suc n) [] = none
read_le (suc n) (b ∷ bytes) = elim (read_le n bytes) [
  | none ↦ none
  | some (v, rest) ↦ some (b + 256 * v, rest)
]

pub read_bytes : ℕ → List ℕ → Option (List ℕ × List ℕ)
read_bytes zero bytes = some ([], bytes)
read_bytes (suc n) [] = none
read_bytes (suc n) (b ∷ bytes) = elim (read_bytes n bytes) [
  | none ↦ none
  | some (v, rest) ↦ some (b ∷ v, rest)
]

pub read_str : List ℕ → Option (List ℕ × List ℕ)
read_str bytes = elim (read_le 8 bytes) [ none ↦ none | some (n, rest) ↦ read_bytes n rest ]

pub read_strs : ℕ → List ℕ → Option (List (List ℕ) × List ℕ)
read_strs zero bytes = some ([], bytes)
read_strs (suc n) bytes = elim (read_str bytes) [
  | none ↦ none
  | some (item, rest) ↦ elim (read_strs n rest) [
    | none ↦ none
    | some (items, rest') ↦ some (item ∷ items, rest')
  ]
]

pub read_collection : List ℕ → Option (List (List ℕ) × List ℕ)
unfolding read_le read_strs
read_collection bytes = elim (read_le 8 bytes) [ none ↦ none | some (n, rest) ↦ read_strs n rest ]

read_le-to_le_bytes-suc :
    (n v : ℕ) (rest : List ℕ)
    → read_le n (to_le_bytes n (v / 256) ++ rest) ≡ some (v / 256, rest)
    → read_le (suc n) (to_le_bytes (suc n) v ++ rest) ≡ some (v, rest)
unfolding read_le to_le_bytes
read_le-to_le_bytes-suc n v rest ih = rw ih (ground arith)

read_le-to_le_bytes :
    (n v : ℕ) (rest : List ℕ) → v < 256 ^ n → read_le n (to_le_bytes n v ++ rest) ≡ some (v, rest)
unfolding read_le to_le_bytes
read_le-to_le_bytes zero v rest h = ground arith
read_le-to_le_bytes (suc n) v rest h =
    read_le-to_le_bytes-suc n v rest
      (read_le-to_le_bytes n (v / 256) rest (omega (arith, pow-suc 256 n)))

read_bytes-append :
    (bytes rest : List ℕ) → read_bytes (length bytes) (bytes ++ rest) ≡ some (bytes, rest)
unfolding read_bytes
read_bytes-append [] rest = refl
read_bytes-append (b ∷ bytes) rest = rw (read_bytes-append bytes rest)

read_str-str_frame :
    (bytes rest : List ℕ)
    → length bytes < 2 ^ 64
    → read_str (str_frame bytes ++ rest) ≡ some (bytes, rest)
unfolding read_str str_frame
read_str-str_frame bytes rest fits = rw (append_assoc (to_le_bytes 8 (length bytes)) bytes rest) (
    rw (read_le-to_le_bytes 8 (length bytes) (bytes ++ rest) fits, read_str)
      (read_bytes-append bytes rest))

read_strs-str_frames :
    (items : List (List ℕ)) (rest : List ℕ)
    → All (λ item. length item < 2 ^ 64) items
    → read_strs (length items) (str_frames items ++ rest) ≡ some (items, rest)
unfolding read_strs str_frames
read_strs-str_frames [] rest fits = refl
read_strs-str_frames (item ∷ items) rest fits =
    rw (append_assoc (str_frame item) (str_frames items) rest) (
      rw (read_str-str_frame item (str_frames items ++ rest) fits.0, read_strs)
        (rw (read_strs-str_frames items rest fits.1, read_strs)))

read-collection_frame :
    (items : List (List ℕ)) (rest : List ℕ)
    → length items < 2 ^ 64
    → All (λ item. length item < 2 ^ 64) items
    → read_collection (collection_frame items ++ rest) ≡ some (items, rest)
unfolding read_collection collection_frame
read-collection_frame items rest fits each =
    rw (append_assoc (to_le_bytes 8 (length items)) (str_frames items) rest) (
      rw (read_le-to_le_bytes 8 (length items) (str_frames items ++ rest) fits, read_collection)
        (read_strs-str_frames items rest each))

-- On a collection with lengths below 2 ^ 64, `absorb_str_collection` does not panic, and the bytes that it
-- feeds to SHA-256, after those that the hasher was fed before, are read back, with anything behind them,
-- as the same strings and the same rest: no element can move between two neighbouring collections.
pub read-absorb_str_collection :
    (sha : Sha256) (items : List (List ℕ)) (h : Hasher sha)
    → length items < 2 ^ 64
    → All (λ item. length item < 2 ^ 64) items
    → (h' : Hasher sha) × (bytes : List ℕ) × (absorb_str_collection sha items h ≡ some h')
      × (sha.update h'.hasher h'.scratch ≡ sha.update (sha.update h.hasher h.scratch) bytes)
      × ((rest : List ℕ) → read_collection (bytes ++ rest) ≡ some (items, rest))
read-absorb_str_collection sha items h fits each =
    let (h', returned, fed) = absorb_str_collection_lem sha items h fits each in
    (h', collection_frame items, returned, fed, λ rest. read-collection_frame items rest fits each)

-- The cell behind a frame of nine bytes: a masked cell is not the cell 0.0.
pub read_cell : List ℕ → Option (Option ℕ × List ℕ)
read_cell [] = none
read_cell (tag ∷ bytes) = elim (read_le 8 bytes) [
  | none ↦ none
  | some (v, rest) ↦ some ((elim tag [ zero ↦ none | suc t ↦ some v ]), rest)
]

abbrev pub IsDouble : Option ℕ → Type 0
IsDouble none = Unit
IsDouble (some bits) = bits < 2 ^ 64

-- A framed cell, masked or with the bit pattern of a double, is read back, with anything behind it.
pub read-framed :
    (cell : Option ℕ) (rest : List ℕ)
    → IsDouble cell
    → read_cell (framed cell ++ rest) ≡ some (cell, rest)
unfolding read_cell framed
read-framed none rest h = unfold read_le in refl
read-framed (some bits) rest h = rw (read_le-to_le_bytes 8 bits rest h, read_cell)
