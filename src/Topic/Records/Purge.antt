-- ===== src/Topic/Records/Purge.antt =====
-- A purge truncates every partition at its end: internal/service/topic/delete.go.
use kafka3o_gateway.Prelude.{
  ℤ, pos, ltb_ℤ, ◌≡◌, refl, ap, ◌∙◌, true, false, Bool-cases, inl, inr, List, [], ◌∷◌, map, int_eq,
  All, if◌then◌else◌, arith, ◌==◌, eqb_refl,
}
use kafka3o_gateway.Prelude.Map
use kafka3o_gateway.Prelude.Map.{Map, keys}
use kafka3o_gateway.Prelude.Sort.{int_order}
use kafka3o_gateway.Prelude.Sort.Unique.{has}
use kafka3o_gateway.Errors.{ok}
use kafka3o_gateway.Message.Service.{Topic, Partition}
use kafka3o_gateway.Topic.Records.{
  PartitionDeleteRecordsDetail, truncation_detail, truncation, truncations, truncated_partition,
  partition_ids, id_of, end_of_each,
}

module _ (ids : List ℤ) (ends : Map ℤ ℤ) where
  -- An entry that truncates a partition of the topic at its end.
  abbrev AtEnd : ℤ × ℤ → Type 0
  AtEnd p = (has p.0 ids ≡ true) × (p.1 ≡ Map.get_or (pos 0) p.0 ends)

  insert-AtEnd : (k v : ℤ) (m : Map ℤ ℤ) → AtEnd (k, v) → All AtEnd m → All AtEnd (Map.insert k v m)
  unfolding Map.insert
  insert-AtEnd k v [] h t = (h, tt)
  insert-AtEnd k v ((i, old) ∷ rest) h t = elim (Bool-cases (i == k)) [
    | inl same ↦ rw same (h, t.1)
    | inr differs ↦ rw differs (t.0, insert-AtEnd k v rest h t.1)
  ]

  insert-has_key :
      (a k v : ℤ) (m : Map ℤ ℤ)
      → has a (keys (Map.insert k v m)) ≡ (if k == a then true else has a (keys m))
  unfolding Map.insert has
  insert-has_key a k v [] = refl
  insert-has_key a k v ((i, old) ∷ rest) = ground (
    arith,
    insert-has_key a k v rest,
    int_eq.equal_iff i k,
    int_eq.equal_iff i a,
    int_eq.equal_iff k a,
  )

  ends_from : List Partition → Map ℤ ℤ → Map ℤ ℤ
  ends_from ps m = Map.insert_each id_of (λ p. Map.get_or (pos 0) p.id ends) ps m

  ends_from-AtEnd :
      (ps : List Partition) (m : Map ℤ ℤ)
      → All (λ (p : Partition). has p.id ids ≡ true) ps
      → All AtEnd m
      → All AtEnd (ends_from ps m)
  unfolding ends_from Map.insert_each
  ends_from-AtEnd [] m h t = t
  ends_from-AtEnd (p ∷ ps) m h t =
      ends_from-AtEnd ps _ h.1 (insert-AtEnd p.id (Map.get_or (pos 0) p.id ends) m (h.0, refl) t)

  ends_from-has :
      (a : ℤ) (ps : List Partition) (m : Map ℤ ℤ)
      → has a (keys (ends_from ps m)) ≡ (if has a (map id_of ps) then true else has a (keys m))
  unfolding ends_from Map.insert_each has
  ends_from-has a [] m = refl
  ends_from-has a (p ∷ ps) m =
      ends_from-has a ps (Map.insert p.id (Map.get_or (pos 0) p.id ends) m)
      ∙ ground (arith, insert-has_key a p.id (Map.get_or (pos 0) p.id ends) m)

  -- The details of entries that are all at the end.
  details : Map ℤ ℤ → Map ℤ ℤ → List PartitionDeleteRecordsDetail
  details starts [] = []
  details starts ((p, to) ∷ rest) = truncation_detail starts p to ∷ details starts rest

  truncations-details :
      {P : Type 0} (starts offsets : Map ℤ ℤ)
      → All AtEnd offsets
      → truncations {P = P} ids starts ends offsets ≡ ok (details starts offsets)
  unfolding truncations truncation details
  truncations-details starts [] h = refl
  truncations-details {P = P} starts ((p, to) ∷ rest) h = ground (
    arith,
    h.0,
    truncations-details {P = P} starts rest h.1,
    leb_refl (Map.get_or (pos 0) p ends),
  )
    where
      leb_refl : (a : ℤ) → ltb_ℤ a a ≡ false
      leb_refl a = ground arith

  details-keys :
      (starts offsets : Map ℤ ℤ) → map truncated_partition (details starts offsets) ≡ keys offsets
  unfolding details
  details-keys starts [] = refl
  details-keys starts ((p, to) ∷ rest) = ap (λ l. p ∷ l) (details-keys starts rest)

  details-AtEnd :
      (starts offsets : Map ℤ ℤ)
      → All AtEnd offsets
      → All
          (λ (d : PartitionDeleteRecordsDetail).
            d.truncate_to ≡ Map.get_or (pos 0) d.partition ends)
          (details starts offsets)
  unfolding details
  details-AtEnd starts [] h = tt
  details-AtEnd starts ((p, to) ∷ rest) h = (h.0.1, details-AtEnd starts rest h.1)

All-known :
    (ps : List Partition) (ids : List ℤ)
    → ((a : ℤ) → has a (map id_of ps) ≡ true → has a ids ≡ true)
    → All (λ (p : Partition). has p.id ids ≡ true) ps
unfolding has
All-known [] ids h = tt
All-known (p ∷ ps) ids h =
    (h p.id (ground (arith, eqb_refl p.id)), All-known ps ids (λ a k. h a (ground (arith, k))))

-- If the end offsets do not change between a purge's two readings, its plan is never refused: it
-- has every partition of the topic and no other, each truncated at its end.
pub truncations-purge :
    {P : Type 0} (t : Topic) (starts ends : Map ℤ ℤ)
    → (ds : List PartitionDeleteRecordsDetail) × (truncations {P = P}
          (partition_ids t)
          starts
          ends
          (end_of_each ends t.partitions)
        ≡ ok ds)
      × All
          (λ (d : PartitionDeleteRecordsDetail).
            d.truncate_to ≡ Map.get_or (pos 0) d.partition ends)
          ds
      × ((a : ℤ) → has a (map truncated_partition ds) ≡ has a (partition_ids t))
unfolding end_of_each ends_from has
truncations-purge t starts ends =
    let ids = partition_ids t in
    let offsets = ends_from ids ends t.partitions [] in
    let fine =
      ends_from-AtEnd ids ends t.partitions [] (All-known t.partitions ids (λ a h. h)) tt in
    (
      details ids ends starts offsets,
      truncations-details ids ends starts offsets fine,
      details-AtEnd ids ends starts offsets fine,
      λ a.
          ap (has a) (details-keys ids ends starts offsets)
          ∙ ends_from-has ids ends a t.partitions []
          ∙ only a t,
    )
  where
    only :
        (a : ℤ) (t : Topic)
        → (if has a (partition_ids t) then true else false) ≡ has a (partition_ids t)
    only a t = ground arith
