-- ===== src/ContentHash.antt =====
-- crates/dag-ml-data-core/src/content_hash.rs: the streaming hasher. A byte is a number below 256, a
-- `&str` stands for its UTF-8 bytes and an `f64` for its 64-bit pattern. SHA-256 (the `sha2` crate) is
-- the parameter `Sha256`. `none` is a panic.
pub mod Stream
pub mod Scratch
pub mod Framing
use dag_ml_data.Common.{
  ℕ, zero, suc, ◌+◌, ◌-◌, ◌*◌, ◌^◌, ◌/◌, ◌%◌, ◌≡◌, refl, Bool, true, false, List, [], ◌∷◌, ◌++◌,
  Option, none, some, ltb, leb, length, is_empty, if◌then◌else◌,
}

-- What the code relies on: feeding a digest in pieces is feeding it the concatenation.
pub record Sha256 : Type 1 where
  pub State : Type 0
  pub init : State
  pub update : State → List ℕ → State
  pub finalize : State → List ℕ
  pub update-nil : (s : State) → update s [] ≡ s
  pub update-append : (s : State) (a b : List ℕ) → update (update s a) b ≡ update s (a ++ b)

abbrev pub scratch_capacity : ℕ
scratch_capacity = 8192

pub record StreamingHasher (State : Type 0) : Type 0 where
  pub hasher : State
  pub scratch : List ℕ

-- `to_le_bytes` of an integer of n bytes.
unfoldable pub to_le_bytes : ℕ → ℕ → List ℕ
to_le_bytes zero value = []
to_le_bytes (suc n) value = (value % 256) ∷ to_le_bytes n (value / 256)

abbrev pub zero_bytes : ℕ → List ℕ
zero_bytes zero = []
zero_bytes (suc n) = 0 ∷ zero_bytes n

-- The nine bytes of `absorb_cell`.
unfoldable pub framed : Option ℕ → List ℕ
framed none = zero_bytes 9
framed (some bits) = 1 ∷ to_le_bytes 8 bits

abbrev pub hex_digit : ℕ → ℕ
hex_digit d = if ltb d 10 then b'0' + d else b'a' + d - 10

-- `{byte:02x}` for every byte.
unfoldable pub hex : List ℕ → List ℕ
hex [] = []
hex (b ∷ bs) = hex_digit (b / 16) ∷ hex_digit (b % 16) ∷ hex bs

module _ (sha : Sha256) where
  open sha use {State, init, update, finalize}

  abbrev pub Hasher : Type 0
  Hasher = StreamingHasher State

  unfoldable pub new : List ℕ → Hasher
  new domain = record { hasher = update init domain; scratch = [] }

  unfoldable pub flush : Hasher → Hasher
  flush h =
      if is_empty h.scratch then h else record { hasher = update h.hasher h.scratch; scratch = [] }

  unfoldable pub push_bytes : List ℕ → Hasher → Hasher
  push_bytes bytes h =
      if leb scratch_capacity (length bytes)
      then (let h' = flush h in record { hasher = update h'.hasher bytes; scratch = h'.scratch })
      else (let h' =
            if ltb scratch_capacity (length h.scratch + length bytes) then flush h else h in
          record { hasher = h'.hasher; scratch = h'.scratch ++ bytes })

  unfoldable pub absorb_u64 : ℕ → Hasher → Hasher
  absorb_u64 value h = push_bytes (to_le_bytes 8 value) h

  -- `u64::try_from(len).expect(…)`.
  unfoldable pub absorb_len : ℕ → Hasher → Option Hasher
  absorb_len len h = if ltb len (2 ^ 64) then some (absorb_u64 len h) else none

  unfoldable pub absorb_str : List ℕ → Hasher → Option Hasher
  absorb_str bytes h = elim (absorb_len (length bytes) h) [
    | none ↦ none
    | some h' ↦ some (push_bytes bytes h')
  ]

  unfoldable pub absorb_each : List (List ℕ) → Hasher → Option Hasher
  absorb_each [] h = some h
  absorb_each (item ∷ items) h = elim (absorb_str item h) [
    | none ↦ none
    | some h' ↦ absorb_each items h'
  ]

  unfoldable pub absorb_str_collection : List (List ℕ) → Hasher → Option Hasher
  absorb_str_collection items h = elim (absorb_len (length items) h) [
    | none ↦ none
    | some h' ↦ absorb_each items h'
  ]

  unfoldable pub absorb_cell : Option ℕ → Hasher → Hasher
  absorb_cell cell h = push_bytes (framed cell) h

  unfoldable pub absorb_raw : List ℕ → Hasher → Hasher
  absorb_raw bytes h = push_bytes bytes h

  unfoldable pub finalize_hex : Hasher → List ℕ
  finalize_hex h = hex (finalize (flush h).hasher)
