-- ===== src/PostBundle/Healed.antt =====
-- That the hash that is signed does not depend on the order of the set of healed posts.
use mathlib.Core.List.{Perm, Permᴰ, is_set}
use native.Mathlib.Nat.{ℕ_set}
use mathlib.Core.Logic.{∥∥₁_elim}
use hashiverse.Prelude.{ℕ, ◌≡◌, refl, ap₂, ◌∙◌, arith, true, false, List, [], ◌∷◌}
use hashiverse.Store.{bytes_lt}
use hashiverse.Crypto.{Crypto}
use hashiverse.PostBundle.{
  Parts, Header, sort_insert, sort_ids, get_hash_for_signing, signature_verify,
}

bytes_lt_asym : (a b : List ℕ) → bytes_lt a b ≡ true → bytes_lt b a ≡ false
unfolding bytes_lt
bytes_lt_asym [] [] h = absurd cc
bytes_lt_asym [] (y ∷ b) h = refl
bytes_lt_asym (x ∷ a) [] h = absurd cc
bytes_lt_asym (x ∷ a) (y ∷ b) h = ground (arith, bytes_lt_asym a b)

eq_of_not_lt : (a b : List ℕ) → bytes_lt a b ≡ false → bytes_lt b a ≡ false → a ≡ b
unfolding bytes_lt
eq_of_not_lt [] [] h k = refl
eq_of_not_lt [] (y ∷ b) h k = absurd cc
eq_of_not_lt (x ∷ a) [] h k = absurd cc
eq_of_not_lt (x ∷ a) (y ∷ b) h k = ground (arith, eq_of_not_lt a b)

lt_trans : (a b c : List ℕ) → bytes_lt a b ≡ true → bytes_lt b c ≡ true → bytes_lt a c ≡ true
unfolding bytes_lt
lt_trans [] [] c h k = absurd cc
lt_trans [] (y ∷ b) [] h k = absurd cc
lt_trans [] (y ∷ b) (z ∷ c) h k = refl
lt_trans (x ∷ a) [] c h k = absurd cc
lt_trans (x ∷ a) (y ∷ b) [] h k = absurd cc
lt_trans (x ∷ a) (y ∷ b) (z ∷ c) h k = ground (arith, lt_trans a b c)

sort_insert_comm :
    (a b : List ℕ) (l : List (List ℕ))
    → sort_insert a (sort_insert b l) ≡ sort_insert b (sort_insert a l)
unfolding sort_insert
sort_insert_comm a b [] = ground (arith, bytes_lt_asym a b, bytes_lt_asym b a, eq_of_not_lt a b)
sort_insert_comm a b (x ∷ l) = ground (
  arith,
  bytes_lt_asym a b,
  bytes_lt_asym b a,
  eq_of_not_lt a b,
  lt_trans a x b,
  lt_trans b x a,
  lt_trans a b x,
  lt_trans b a x,
  lt_trans x a b,
  lt_trans x b a,
  sort_insert_comm a b l,
)

permᴰ-sort_ids : {xs ys : List (List ℕ)} → Permᴰ xs ys → sort_ids xs ≡ sort_ids ys
unfolding sort_ids
permᴰ-sort_ids Permᴰ.nil = refl
permᴰ-sort_ids (Permᴰ.cons e p) = ap₂ sort_insert e (permᴰ-sort_ids p)
permᴰ-sort_ids (Permᴰ.swap {a} {b} {l = l} e e') = rw (e, e') (sort_insert_comm _ _ (sort_ids l))
permᴰ-sort_ids (Permᴰ.trans p q) = permᴰ-sort_ids p ∙ permᴰ-sort_ids q

sort_ids-perm : {xs ys : List (List ℕ)} → Perm xs ys → sort_ids xs ≡ sort_ids ys
sort_ids-perm p = ∥∥₁_elim p (is_set (is_set ℕ_set) _ _) permᴰ-sort_ids

module _ (P : Parts) (C : Crypto) where
  -- Whatever the order in which the set of healed posts lists its elements, the hash that is signed
  -- is the same, and so is the verdict on the signature.
  pub get_hash_for_signing_perm :
      (h : Header P.Peer) (healed : List (List ℕ))
      → Perm healed h.encoded_post_healed
      → (get_hash_for_signing P C (record h { encoded_post_healed = healed })
          ≡ get_hash_for_signing P C h)
        × (signature_verify P C (record h { encoded_post_healed = healed })
            ≡ signature_verify P C h)
  unfolding get_hash_for_signing signature_verify
  get_hash_for_signing_perm h healed p = rw (sort_ids-perm p) (refl, refl)
