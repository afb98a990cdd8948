-- ===== src/ClientStorage/Examples.antt =====
-- A value that is put into a new storage.
use hashiverse.Prelude.{◌≡◌, refl, bytes_eq, [], ◌∷◌, ok, List, ℕ}
use hashiverse.Prelude.Int.{pos}
use hashiverse.Assoc.{get, insert}
use hashiverse.ClientStorage.{MemClientStorage, new_storage, put, bucket_of, empty_buckets}

abbrev peer : List ℕ
peer = 112 ∷ 101 ∷ 101 ∷ 114 ∷ []

abbrev written : MemClientStorage
written =
    insert new_storage peer (((5 ∷ []), record { value = 1 ∷ []; last_accessed = pos 8 }) ∷ [])

put_new : put new_storage peer (5 ∷ []) (1 ∷ []) (pos 8) ≡ ok written
unfolding put bucket_of new_storage empty_buckets get insert bytes_eq
put_new = refl
