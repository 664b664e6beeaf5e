-- ===== src/ContentHash/Stream.antt =====
-- The scratch buffer of the streaming hasher is transparent: the digest is that of the
-- concatenation of the frames.
use dag_ml_data.Common.{
  ℕ, ◌+◌, ◌^◌, ◌<◌, ◌≡◌, refl, ap, sym, ◌∙◌, List, [], ◌∷◌, ◌++◌, Option, none, some, arith, length,
  ltb, leb, is_empty, if◌then◌else◌, Bool, true, false, Bool-cases, inl, inr, All,
}
use dag_ml_data.ContentHash.{
  Sha256, Hasher, scratch_capacity, to_le_bytes, framed, hex, new, flush, push_bytes, absorb_u64,
  absorb_len, absorb_str, absorb_each, absorb_str_collection, absorb_cell, absorb_raw, finalize_hex,
}

-- One call on the hasher.
pub data Absorb : Type 0 where
  u64 : ℕ → Absorb
  str : List ℕ → Absorb
  str_collection : List (List ℕ) → Absorb
  cell : Option ℕ → Absorb
  raw : List ℕ → Absorb

-- The bytes that a call adds to the preimage.
unfoldable pub str_frame : List ℕ → List ℕ
str_frame bytes = to_le_bytes 8 (length bytes) ++ bytes

unfoldable pub str_frames : List (List ℕ) → List ℕ
str_frames [] = []
str_frames (item ∷ items) = str_frame item ++ str_frames items

unfoldable pub collection_frame : List (List ℕ) → List ℕ
unfolding str_frames
collection_frame items = to_le_bytes 8 (length items) ++ str_frames items

pub frame : Absorb → List ℕ
frame (u64 v) = to_le_bytes 8 v
frame (str bytes) = str_frame bytes
frame (str_collection items) = collection_frame items
frame (cell c) = framed c
frame (raw bytes) = bytes

pub preimage : List Absorb → List ℕ
preimage [] = []
preimage (op ∷ ops) = frame op ++ preimage ops

-- Every length fits in 64 bits, as on every machine that the code runs on.
abbrev pub Fits : Absorb → Type 0
Fits (str bytes) = length bytes < 2 ^ 64
Fits (str_collection items) = (length items < 2 ^ 64) × All (λ item. length item < 2 ^ 64) items
Fits _ = Unit

module _ (sha : Sha256) where
  open sha use {State, init, update, finalize, update-nil, update-append}

  unfoldable pub absorb : Absorb → Hasher sha → Option (Hasher sha)
  absorb (u64 v) h = some (absorb_u64 sha v h)
  absorb (str bytes) h = absorb_str sha bytes h
  absorb (str_collection items) h = absorb_str_collection sha items h
  absorb (cell c) h = some (absorb_cell sha c h)
  absorb (raw bytes) h = some (absorb_raw sha bytes h)

  unfoldable pub absorb_all : List Absorb → Hasher sha → Option (Hasher sha)
  absorb_all [] h = some h
  absorb_all (op ∷ ops) h = elim (absorb op h) [ none ↦ none | some h' ↦ absorb_all ops h' ]

  -- What the hasher has been fed, the scratch included.
  fed : Hasher sha → State
  fed h = update h.hasher h.scratch

  fed-flush : (h : Hasher sha) → (flush sha h).hasher ≡ fed h
  unfolding flush fed
  fed-flush h = go h.scratch
    where
      go :
          (s : List ℕ)
          → (if is_empty s then h else record { hasher = update h.hasher s; scratch = [] }).hasher
            ≡ update h.hasher s
      go [] = sym (update-nil h.hasher)
      go (b ∷ bs) = refl

  scratch-flush : (h : Hasher sha) → (flush sha h).scratch ≡ []
  unfolding flush
  scratch-flush h = ground arith

  fed-flush-fed : (h : Hasher sha) → fed (flush sha h) ≡ fed h
  fed-flush-fed h =
      let e = scratch-flush h in
      let f = fed-flush h in unfold fed in rw e (update-nil (flush sha h).hasher ∙ f)

  fed-append :
      (h : Hasher sha) (bytes : List ℕ)
      → update h.hasher (h.scratch ++ bytes) ≡ update (fed h) bytes
  unfolding fed
  fed-append h bytes = sym (update-append h.hasher h.scratch bytes)

  fed-extend :
      (b : Bool) (bytes : List ℕ) (h : Hasher sha)
      → (let h' = if b then flush sha h else h in
          fed (record { hasher = h'.hasher; scratch = h'.scratch ++ bytes }))
        ≡ update (fed h) bytes
  fed-extend true bytes h =
      unfold fed in (fed-append (flush sha h) bytes) ∙ ap (λ s. update s bytes) (fed-flush-fed h)
  fed-extend false bytes h = unfold fed in fed-append h bytes

  fed-push_bytes :
      (bytes : List ℕ) (h : Hasher sha) → fed (push_bytes sha bytes h) ≡ update (fed h) bytes
  unfolding push_bytes
  fed-push_bytes bytes h = elim (Bool-cases (leb scratch_capacity (length bytes))) [
    | inl big ↦ rw big (
        unfold fed in
        (rw (scratch-flush h) (
          update-nil (update (flush sha h).hasher bytes) ∙ ap (λ s. update s bytes) (fed-flush h))))
    | inr small ↦
        rw small (fed-extend (ltb scratch_capacity (length h.scratch + length bytes)) bytes h)
  ]

  -- `h'` has been fed `bytes` after what `h` had.
  abbrev Extends : List ℕ → Hasher sha → Option (Hasher sha) → Type 0
  Extends bytes h o = (h' : Hasher sha) × (o ≡ some h') × (fed h' ≡ update (fed h) bytes)

  Extends-then :
      (a b : List ℕ) (h : Hasher sha) (o : Option (Hasher sha))
      (k : Hasher sha → Option (Hasher sha))
      → Extends a h o
      → ((h' : Hasher sha) → Extends b h' (k h'))
      → Extends (a ++ b) h (elim o [ none ↦ none | some h' ↦ k h' ])
  Extends-then a b h o k (h', e, f) next =
      let (h'', e', f') = next h' in
      (h'', rw e e', f' ∙ ap (λ s. update s b) f ∙ update-append (fed h) a b)

  absorb_len-Extends :
      (len : ℕ) (h : Hasher sha)
      → len < 2 ^ 64
      → Extends (to_le_bytes 8 len) h (absorb_len sha len h)
  unfolding absorb_len absorb_u64
  absorb_len-Extends len h fits =
      (push_bytes sha (to_le_bytes 8 len) h, ground arith, fed-push_bytes (to_le_bytes 8 len) h)

  absorb_str-Extends :
      (bytes : List ℕ) (h : Hasher sha)
      → length bytes < 2 ^ 64
      → Extends (str_frame bytes) h (absorb_str sha bytes h)
  unfolding absorb_str str_frame
  absorb_str-Extends bytes h fits =
      Extends-then (to_le_bytes 8 (length bytes)) bytes h (absorb_len sha (length bytes) h)
        (λ h'. some (push_bytes sha bytes h')) (absorb_len-Extends (length bytes) h fits)
        (λ h'. (push_bytes sha bytes h', refl, fed-push_bytes bytes h'))

  absorb_each-Extends :
      (items : List (List ℕ)) (h : Hasher sha)
      → All (λ item. length item < 2 ^ 64) items
      → Extends (str_frames items) h (absorb_each sha items h)
  unfolding absorb_each str_frames
  absorb_each-Extends [] h fits = (h, refl, sym (update-nil (fed h)))
  absorb_each-Extends (item ∷ items) h fits =
      Extends-then (str_frame item) (str_frames items) h (absorb_str sha item h)
        (absorb_each sha items) (absorb_str-Extends item h fits.0)
        (λ h'. absorb_each-Extends items h' fits.1)

  absorb-Extends : (op : Absorb) (h : Hasher sha) → Fits op → Extends (frame op) h (absorb op h)
  unfolding absorb frame absorb_u64 absorb_str_collection collection_frame absorb_cell absorb_raw
  absorb-Extends (u64 v) h fits = (absorb_u64 sha v h, refl, fed-push_bytes (to_le_bytes 8 v) h)
  absorb-Extends (str bytes) h fits = absorb_str-Extends bytes h fits
  absorb-Extends (str_collection items) h fits =
      Extends-then (to_le_bytes 8 (length items)) (str_frames items) h
        (absorb_len sha (length items) h) (absorb_each sha items)
        (absorb_len-Extends (length items) h fits.0) (λ h'. absorb_each-Extends items h' fits.1)
  absorb-Extends (cell c) h fits = (absorb_cell sha c h, refl, fed-push_bytes (framed c) h)
  absorb-Extends (raw bytes) h fits = (absorb_raw sha bytes h, refl, fed-push_bytes bytes h)

  -- What a collection adds to the bytes that the hasher has been fed.
  pub absorb_str_collection_lem :
      (items : List (List ℕ)) (h : Hasher sha)
      → length items < 2 ^ 64
      → All (λ item. length item < 2 ^ 64) items
      → (h' : Hasher sha) × (absorb_str_collection sha items h ≡ some h')
        × (update h'.hasher h'.scratch
            ≡ update (update h.hasher h.scratch) (collection_frame items))
  unfolding absorb frame fed
  absorb_str_collection_lem items h fits each = absorb-Extends (str_collection items) h (fits, each)

  absorb_all-Extends :
      (ops : List Absorb) (h : Hasher sha)
      → All Fits ops
      → Extends (preimage ops) h (absorb_all ops h)
  unfolding absorb_all preimage
  absorb_all-Extends [] h fits = (h, refl, sym (update-nil (fed h)))
  absorb_all-Extends (op ∷ ops) h fits =
      Extends-then (frame op) (preimage ops) h (absorb op h) (absorb_all ops)
        (absorb-Extends op h fits.0) (λ h'. absorb_all-Extends ops h' fits.1)

  -- Whatever calls follow the domain tag, with lengths below 2 ^ 64, the hasher does not panic, and its
  -- digest is the SHA-256 of the tag followed by the frames of the calls, in order: the scratch buffer
  -- and its flushes leave no trace.
  pub digest-preimage :
      (domain : List ℕ) (ops : List Absorb)
      → All Fits ops
      → (h : Hasher sha) × (absorb_all ops (new sha domain) ≡ some h)
        × (finalize_hex sha h ≡ hex (finalize (update init (domain ++ preimage ops))))
  unfolding finalize_hex new fed
  digest-preimage domain ops fits =
      let (h, e, f) = absorb_all-Extends ops (new sha domain) fits in
      (
        h,
        e,
        ap (λ s. hex (finalize s))
            (fed-flush h
              ∙ f
              ∙ ap (λ s. update s (preimage ops)) (update-nil (update init domain))
              ∙ update-append init domain (preimage ops)),
      )
