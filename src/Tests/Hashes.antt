-- ===== src/Tests/Hashes.antt =====
-- A stand-in for SHA-256 with the law that the hasher relies on, and a few frames.
use dag_ml_data.ContentHash.Scratch.{absorb_all-IsBounded, IsBounded}
use dag_ml_data.Common.{
  refl, ℕ, ◌≡◌, none, some, List, [], ◌∷◌, ◌++◌, arith, append_assoc, append-nil,
}
use dag_ml_data.Order.{nat_ord, list_ord}
use dag_ml_data.ContentHash.{
  absorb_str_collection, to_le_bytes, flush, push_bytes, absorb_len, absorb_str, absorb_u64, Sha256,
  Hasher, new, finalize_hex, hex, framed,
}
use dag_ml_data.ContentHash.Stream.{
  absorb, Absorb, u64, str, cell, absorb_all, preimage, digest-preimage,
}
use dag_ml_data.ContentHash.Framing.{
  read-absorb_str_collection, read_collection, read_cell, read-framed,
}

-- The digest is the bytes themselves.
abbrev transcript : Sha256
transcript = record {
  State = List ℕ;
  init = [];
  update = λ s bytes. s ++ bytes;
  finalize = λ s. s;
  update-nil = append-nil;
  update-append = append_assoc;
}

abbrev calls : List Absorb
calls = u64 7 ∷ str (97 ∷ 98 ∷ []) ∷ cell none ∷ []

digest-preimage_example :
    (h : Hasher transcript) × (absorb_all transcript calls (new transcript (100 ∷ [])) ≡ some h)
    × (finalize_hex transcript h ≡ hex ([] ++ ((100 ∷ []) ++ preimage calls)))
digest-preimage_example = digest-preimage transcript (100 ∷ []) calls (omega arith)

abbrev pair : List (List ℕ)
pair = (97 ∷ []) ∷ (98 ∷ 99 ∷ []) ∷ []

read-absorb_str_collection_example :
    (h : Hasher transcript) × (bytes : List ℕ) × (absorb_str_collection transcript pair
        (new transcript (100 ∷ []))
      ≡ some h)
    × (transcript.update h.hasher h.scratch
        ≡ transcript.update
            (transcript.update
              (new transcript (100 ∷ [])).hasher
              (new transcript (100 ∷ [])).scratch)
            bytes)
    × ((rest : List ℕ) → read_collection (bytes ++ rest) ≡ some (pair, rest))
read-absorb_str_collection_example =
    read-absorb_str_collection transcript pair (new transcript (100 ∷ [])) (omega arith)
      (omega arith)

read-framed_example :
    read_cell (framed (some 4607182418800017408) ++ 1 ∷ [])
    ≡ some (some 4607182418800017408, 1 ∷ [])
read-framed_example = read-framed (some 4607182418800017408) (1 ∷ []) (omega arith)

abbrev fed_calls : Hasher transcript
fed_calls = record {
  hasher = 100 ∷ [];
  scratch = 7 ∷ 0 ∷ 0 ∷ 0 ∷ 0 ∷ 0 ∷ 0 ∷ 0 ∷ 1 ∷ 0 ∷ 0 ∷ 0 ∷ 0 ∷ 0 ∷ 0 ∷ 0 ∷ 97 ∷ [];
}

fed_calls_lem :
    absorb_all transcript (u64 7 ∷ str (97 ∷ []) ∷ []) (new transcript (100 ∷ [])) ≡ some fed_calls
unfolding absorb_all absorb absorb_u64 absorb_str absorb_len push_bytes flush new to_le_bytes
fed_calls_lem = refl

absorb_all-IsBounded_example : IsBounded transcript fed_calls
absorb_all-IsBounded_example =
    absorb_all-IsBounded transcript (100 ∷ []) (u64 7 ∷ str (97 ∷ []) ∷ []) fed_calls fed_calls_lem
