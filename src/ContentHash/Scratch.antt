-- ===== src/ContentHash/Scratch.antt =====
-- The size of the scratch buffer of the streaming hasher.
use dag_ml_data.Common.{
  ℕ, ◌≤◌, ◌≡◌, List, [], ◌∷◌, Option, none, some, arith, length, length-append, ltb, ◌^◌, subst,
  Bool-cases, inl, inr,
}
use dag_ml_data.ContentHash.{
  Sha256, Hasher, scratch_capacity, new, flush, push_bytes, absorb_u64, absorb_len, absorb_str,
  absorb_each, absorb_str_collection, absorb_cell, absorb_raw, to_le_bytes, framed,
}
use dag_ml_data.ContentHash.Stream.{Absorb, absorb, absorb_all, u64, str, str_collection, cell, raw}

module _ (sha : Sha256) where
  abbrev pub IsBounded : Hasher sha → Type 0
  IsBounded h = length h.scratch ≤ scratch_capacity

  abbrev IfSome : Option (Hasher sha) → Type 0
  IfSome none = Unit
  IfSome (some h) = IsBounded h

  IfSome-then :
      (o : Option (Hasher sha)) (k : Hasher sha → Option (Hasher sha))
      → IfSome o
      → ((h : Hasher sha) → IsBounded h → IfSome (k h))
      → IfSome (elim o [ none ↦ none | some h ↦ k h ])
  IfSome-then none k b next = tt
  IfSome-then (some h) k b next = next h b

  push_bytes-IsBounded :
      (bytes : List ℕ) (h : Hasher sha) → IsBounded h → IsBounded (push_bytes sha bytes h)
  unfolding push_bytes flush
  push_bytes-IsBounded bytes h b = ground (arith, length-append h.scratch bytes)

  absorb_len-IsBounded : (len : ℕ) (h : Hasher sha) → IsBounded h → IfSome (absorb_len sha len h)
  unfolding absorb_len absorb_u64
  absorb_len-IsBounded len h b = elim (Bool-cases (ltb len (2 ^ 64))) [
    | inl fits ↦ rw fits (push_bytes-IsBounded (to_le_bytes 8 len) h b)
    | inr over ↦ rw over tt
  ]

  absorb_str-IsBounded :
      (bytes : List ℕ) (h : Hasher sha) → IsBounded h → IfSome (absorb_str sha bytes h)
  unfolding absorb_str
  absorb_str-IsBounded bytes h b =
      IfSome-then (absorb_len sha (length bytes) h) (λ h'. some (push_bytes sha bytes h'))
        (absorb_len-IsBounded (length bytes) h b) (push_bytes-IsBounded bytes)

  absorb_each-IsBounded :
      (items : List (List ℕ)) (h : Hasher sha) → IsBounded h → IfSome (absorb_each sha items h)
  unfolding absorb_each
  absorb_each-IsBounded [] h b = b
  absorb_each-IsBounded (item ∷ items) h b =
      IfSome-then (absorb_str sha item h) (absorb_each sha items) (absorb_str-IsBounded item h b)
        (absorb_each-IsBounded items)

  absorb-IsBounded : (op : Absorb) (h : Hasher sha) → IsBounded h → IfSome (absorb sha op h)
  unfolding absorb absorb_u64 absorb_str_collection absorb_cell absorb_raw
  absorb-IsBounded (u64 v) h b = push_bytes-IsBounded (to_le_bytes 8 v) h b
  absorb-IsBounded (str bytes) h b = absorb_str-IsBounded bytes h b
  absorb-IsBounded (str_collection items) h b =
      IfSome-then (absorb_len sha (length items) h) (absorb_each sha items)
        (absorb_len-IsBounded (length items) h b) (absorb_each-IsBounded items)
  absorb-IsBounded (cell c) h b = push_bytes-IsBounded (framed c) h b
  absorb-IsBounded (raw bytes) h b = push_bytes-IsBounded bytes h b

  absorb_all-IfSome :
      (ops : List Absorb) (h : Hasher sha) → IsBounded h → IfSome (absorb_all sha ops h)
  unfolding absorb_all
  absorb_all-IfSome [] h b = b
  absorb_all-IfSome (op ∷ ops) h b =
      IfSome-then (absorb sha op h) (absorb_all sha ops) (absorb-IsBounded op h b)
        (absorb_all-IfSome ops)

  -- From a fresh hasher, whatever calls follow, the scratch buffer stays within its capacity.
  pub absorb_all-IsBounded :
      (domain : List ℕ) (ops : List Absorb) (h : Hasher sha)
      → absorb_all sha ops (new sha domain) ≡ some h
      → IsBounded h
  unfolding new
  absorb_all-IsBounded domain ops h e =
      subst IfSome e (absorb_all-IfSome ops (new sha domain) (omega arith))
