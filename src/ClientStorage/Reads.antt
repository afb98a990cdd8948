-- ===== src/ClientStorage/Reads.antt =====
-- What the storage holds after a write.
use hashiverse.Prelude.{
  ℕ, ◌≡◌, refl, sym, if◌then◌else◌, Bool-cases, true, inl, inr, ◌&&◌, bytes_eq, bytes_eq_iff,
  Option, none, some, List, ok, or_fail, not_found, >>=-eq-ok,
}
use hashiverse.Prelude.Int.{ℤ}
use hashiverse.Assoc.{Map, get, insert}
use hashiverse.Assoc.Laws.{get-insert}
use hashiverse.ClientStorage.{MemClientStorage, Entry, bucket_of, put}

-- The entry of a key in a bucket, none if there is no such bucket.
abbrev pub entry_of : Option (Map Entry) → List ℕ → Option Entry
entry_of none key = none
entry_of (some b) key = get b key

abbrev pub entry_at : MemClientStorage → List ℕ → List ℕ → Option Entry
entry_at s bucket key = entry_of (get s bucket) key

bucket_of-some :
    (s : MemClientStorage) (bucket : List ℕ) (b : Map Entry)
    → bucket_of s bucket ≡ ok b
    → get s bucket ≡ some b
unfolding bucket_of
bucket_of-some s bucket b h = go (get s bucket) h
  where
    go : (o : Option (Map Entry)) → or_fail o not_found ≡ ok b → o ≡ some b
    go none h = absurd cc
    go (some a) h = cc

ok_injective : {a b : MemClientStorage} → ok a ≡ ok b → a ≡ b
ok_injective h = cc

write-entry_at :
    (s : MemClientStorage) (bucket : List ℕ) (b b' : Map Entry) (bucket' key' : List ℕ)
    → get s bucket ≡ some b
    → entry_at (insert s bucket b') bucket' key'
      ≡ (if bytes_eq bucket bucket' then get b' key' else entry_at s bucket' key')
write-entry_at s bucket b b' bucket' key' h = elim (Bool-cases (bytes_eq bucket bucket')) [
  | inl e ↦ rw (get-insert s bucket b' bucket', e) refl
  | inr e ↦ rw (get-insert s bucket b' bucket', e) refl
]

same_bucket :
    (s : MemClientStorage) (bucket bucket' : List ℕ) (b : Map Entry) (key' : List ℕ)
    → get s bucket ≡ some b
    → bytes_eq bucket bucket' ≡ true
    → entry_at s bucket' key' ≡ get b key'
same_bucket s bucket bucket' b key' h e = rw (sym ((bytes_eq_iff bucket bucket').0 e), h) refl

-- After a `put` that succeeds, the storage holds the value and its time under its key, and under
-- every other key of every bucket what it held before.
pub entry_at-put :
    (s s' : MemClientStorage) (bucket key value : List ℕ) (t : ℤ)
    → put s bucket key value t ≡ ok s'
    → (bucket' key' : List ℕ)
    → entry_at s' bucket' key' ≡ (
        if bytes_eq bucket bucket' && bytes_eq key key'
        then some (record { value = value; last_accessed = t })
        else entry_at s bucket' key')
unfolding put
entry_at-put s s' bucket key value t h bucket' key' =
    let (b, e, k) = >>=-eq-ok (bucket_of s bucket) _ h in
    let there = bucket_of-some s bucket b e in
    let entry : Entry = record { value = value; last_accessed = t } in
    rw (sym (ok_injective k), write-entry_at s bucket b (insert b key entry) bucket' key' there)
      (elim (Bool-cases (bytes_eq bucket bucket')) [
        | inl q ↦
            rw (q, get-insert b key entry key', same_bucket s bucket bucket' b key' there q) refl
        | inr q ↦ rw q refl
      ])
