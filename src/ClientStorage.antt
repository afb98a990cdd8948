-- ===== src/ClientStorage.antt =====
-- The storage of a client in memory,
-- hashiverse-rust/hashiverse-lib/src/client/client_storage/mem_client_storage.rs, and the names of
-- its buckets in client_storage.rs. A call holds the lock of the buckets for as long as it runs.
mod Reads
mod Examples
use hashiverse.Prelude.{
  ℕ, ◌+◌, ◌-◌, ltb, if◌then◌else◌, Option, none, some, List, [], ◌∷◌, map, length, take, Result, ok,
  err, panic, or_fail, not_found, ◌>>=◌,
}
use hashiverse.Prelude.Int.{ℤ, pos, ltb_ℤ}
use hashiverse.Assoc.{Map, get, insert, remove}

pub record Entry : Type 0 where
  pub value : List ℕ
  pub last_accessed : ℤ

abbrev pub MemClientStorage : Type 0
MemClientStorage = Map (Map Entry)

-- `BUCKETS`: "config", "peer", "post_bundle", "post_bundle_feedback", "meta_post_public".
abbrev pub bucket_names : List (List ℕ)
bucket_names =
    (99 ∷ 111 ∷ 110 ∷ 102 ∷ 105 ∷ 103 ∷ [])
    ∷ (112 ∷ 101 ∷ 101 ∷ 114 ∷ [])
    ∷ (112 ∷ 111 ∷ 115 ∷ 116 ∷ 95 ∷ 98 ∷ 117 ∷ 110 ∷ 100 ∷ 108 ∷ 101 ∷ [])
    ∷ (112 ∷ 111 ∷ 115 ∷ 116 ∷ 95 ∷ 98 ∷ 117 ∷ 110 ∷ 100 ∷ 108 ∷ 101 ∷ 95 ∷ 102 ∷ 101 ∷ 101 ∷ 100
        ∷ 98 ∷ 97 ∷ 99 ∷ 107 ∷ [])
    ∷ (109 ∷ 101 ∷ 116 ∷ 97 ∷ 95 ∷ 112 ∷ 111 ∷ 115 ∷ 116 ∷ 95 ∷ 112 ∷ 117 ∷ 98 ∷ 108 ∷ 105 ∷ 99
        ∷ [])
    ∷ []

unfoldable pub empty_buckets : List (List ℕ) → MemClientStorage → MemClientStorage
empty_buckets [] s = s
empty_buckets (name ∷ names) s = empty_buckets names (insert s name [])

unfoldable pub new_storage : MemClientStorage
new_storage = empty_buckets bucket_names []

unfoldable pub bucket_of : MemClientStorage → List ℕ → Result (Map Entry)
bucket_of s bucket = or_fail (get s bucket) not_found

unfoldable pub count : MemClientStorage → List ℕ → Result ℕ
count s bucket = do b ← bucket_of s bucket; ok (length b)

unfoldable pub keys : MemClientStorage → List ℕ → Result (List (List ℕ))
keys s bucket = do b ← bucket_of s bucket; ok (map (λ (x : List ℕ × Entry). x.0) b)

-- A time of zero or before leaves the time of access as it is.
unfoldable pub touch : Map Entry → List ℕ → ℤ → Option Entry → Map Entry × Option (List ℕ)
touch b key t none = (b, none)
touch b key t (some entry) = (
  if ltb_ℤ (pos 0) t then insert b key (record entry { last_accessed = t }) else b,
  some entry.value,
)

unfoldable pub get_value :
    MemClientStorage → List ℕ → List ℕ → ℤ → Result (MemClientStorage × Option (List ℕ))
get_value s bucket key t = do
  b ← bucket_of s bucket
  (let r = touch b key t (get b key) in ok (insert s bucket r.0, r.1))

unfoldable pub put : MemClientStorage → List ℕ → List ℕ → List ℕ → ℤ → Result MemClientStorage
put s bucket key value t = do
  b ← bucket_of s bucket
  ok (insert s bucket (insert b key (record { value = value; last_accessed = t })))

unfoldable pub remove_entry : MemClientStorage → List ℕ → List ℕ → Result MemClientStorage
remove_entry s bucket key = do b ← bucket_of s bucket; ok (insert s bucket (remove b key))

-- `sort_by_key` is stable.
unfoldable pub insert_by_time : List ℕ × ℤ → List (List ℕ × ℤ) → List (List ℕ × ℤ)
insert_by_time x [] = x ∷ []
insert_by_time x (y ∷ ys) =
    let rest = insert_by_time x ys in if ltb_ℤ y.1 x.1 then y ∷ rest else x ∷ y ∷ ys

unfoldable pub sort_by_time : List (List ℕ × ℤ) → List (List ℕ × ℤ)
sort_by_time [] = []
sort_by_time (x ∷ xs) = insert_by_time x (sort_by_time xs)

unfoldable pub remove_all : Map Entry → List (List ℕ × ℤ) → Map Entry
remove_all b [] = b
remove_all b (x ∷ xs) = remove_all (remove b x.0) xs

-- `iter` lists the entries of a hash map in some order.
module _ (iter : Map Entry → Map Entry) where
  unfoldable pub trim_bucket : Map Entry → ℕ → Map Entry
  trim_bucket b max_count =
      if ltb max_count (length b)
      then remove_all b (
          take (length b - max_count)
            (sort_by_time (map (λ (x : List ℕ × Entry). (x.0, x.1.last_accessed)) (iter b))))
      else b

  unfoldable pub trim : MemClientStorage → List ℕ → ℕ → Result MemClientStorage
  trim s bucket max_count = do
    b ← bucket_of s bucket
    ok (insert s bucket (trim_bucket b max_count))

unfoldable pub reset_loop : List (List ℕ) → MemClientStorage → Result MemClientStorage
reset_loop [] s = ok s
reset_loop (name ∷ names) s = do b ← bucket_of s name; reset_loop names (insert s name [])

unfoldable pub reset : MemClientStorage → Result MemClientStorage
reset s = reset_loop bucket_names s
