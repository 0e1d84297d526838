-- ===== src/Tests/Names.antt =====
-- The theorems on the registry, for headers at 0x100 and 0x200 with the name "ab" at 0x900.
use shm_next.Base.{ℕ, ◌==◌, ◌≡◌, refl, true, some, List, [], ◌∷◌, arith, if◌then◌else◌, erase}
use shm_next.Registry.{
  Registry, constructing, hash_name, hash_loop, same_bytes, matches, find_any, initialize, insert,
  unlink, bucket_index,
}
use shm_next.Registry.Chains.{
  IsRegistry, rechained, initialize-IsRegistry, insert-IsRegistry, find_any-insert,
}
use shm_next.Registry.Unlink.{unlink-IsRegistry}

abbrev ab : List ℕ
ab = 97 ∷ 98 ∷ []

abbrev zeroed : Registry
zeroed = record {
  buckets = λ i. 7;
  ready_count = 1;
  total_count = 2;
  reserved_count = 3;
  ptr = λ p. p;
  name = λ p. 0x900;
  next = λ p. 0;
  name_length = λ p. 2;
  name_hash = λ p. hash_name ab;
  state = λ p. constructing;
  byte = λ p. if p == 0x900 then 97 else 98;
}

abbrev empty : Registry
empty = initialize zeroed

abbrev none_yet : ℕ → List ℕ
none_yet i = []

empty-IsRegistry : IsRegistry empty none_yet
empty-IsRegistry = initialize-IsRegistry zeroed

ab-matches : matches empty (hash_name ab) ab 0x100 ≡ true
unfolding matches hash_name hash_loop same_bytes initialize
ab-matches = refl

abbrev after_insert : ℕ → List ℕ
after_insert = rechained empty none_yet empty-IsRegistry 0x100 (0x100 ∷ [])

find_any-insert_example : find_any (insert 0x100 empty) ab ≡ some 0x100
unfolding initialize
find_any-insert_example =
    find_any-insert empty none_yet empty-IsRegistry 0x100 ab (omega arith) (λ i lt. refl)
      (omega arith) ab-matches

one-IsRegistry : IsRegistry (insert 0x100 empty) after_insert
unfolding initialize
one-IsRegistry =
    insert-IsRegistry empty none_yet empty-IsRegistry 0x100 (omega arith) (λ i lt. refl)
      (omega arith)

unlink-IsRegistry_example :
    (r' : Registry) × (unlink 0x100 (insert 0x100 empty) ≡ some r')
    × IsRegistry r' (
        rechained
          (insert 0x100 empty)
          after_insert
          one-IsRegistry
          0x100
          (erase 0x100 (after_insert (bucket_index ((insert 0x100 empty).name_hash 0x100)))))
unfolding insert initialize hash_name hash_loop
unlink-IsRegistry_example =
    unlink-IsRegistry (insert 0x100 empty) after_insert one-IsRegistry 0x100 refl
