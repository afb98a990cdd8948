-- ===== src/Assoc/Laws.antt =====
-- Reading a map after it was written.
use hashiverse.Prelude.{
  ℕ, ◌≡◌, refl, sym, ap, ◌∙◌, arith, true, false, Bool-cases, inl, inr, if◌then◌else◌, bytes_eq,
  bytes_eq_iff, none, some, List, [], ◌∷◌,
}
use hashiverse.Assoc.{Map, get, insert, remove}

-- Equal strings compare alike with any other.
bytes_eq_trans : (a b c : List ℕ) → bytes_eq a b ≡ true → bytes_eq a c ≡ bytes_eq b c
bytes_eq_trans a b c h = ap (λ x. bytes_eq x c) ((bytes_eq_iff a b).0 h)

pub bytes_eq_comm : (a b : List ℕ) → bytes_eq a b ≡ bytes_eq b a
unfolding bytes_eq
bytes_eq_comm [] [] = refl
bytes_eq_comm [] (y ∷ b) = refl
bytes_eq_comm (x ∷ a) [] = refl
bytes_eq_comm (x ∷ a) (y ∷ b) = ground (arith, bytes_eq_comm a b)

not_both : (a b c : List ℕ) → bytes_eq a b ≡ false → bytes_eq a c ≡ true → bytes_eq b c ≡ false
not_both a b c n e = bytes_eq_comm b c ∙ sym (bytes_eq_trans a c b e) ∙ n

module _ {ℓ} {V : Type ℓ} where
  pub get-insert :
      (m : Map V) (key : List ℕ) (v : V) (other : List ℕ)
      → get (insert m key v) other ≡ (if bytes_eq key other then some v else get m other)
  unfolding get insert
  get-insert [] key v other = refl
  get-insert (x ∷ m) key v other = elim (Bool-cases (bytes_eq x.0 key)) [
    | inl e ↦ rw e (elim (Bool-cases (bytes_eq key other)) [
      | inl h ↦ rw h refl
      | inr h ↦ rw (h, bytes_eq_trans x.0 key other e, h) refl
    ])
    | inr e ↦ rw e (elim (Bool-cases (bytes_eq x.0 other)) [
      | inl h ↦ rw (h, not_both x.0 key other e h) refl
      | inr h ↦ rw (h, get-insert m key v other) refl
    ])
  ]

  pub get-remove :
      (m : Map V) (key other : List ℕ)
      → get (remove m key) other ≡ (if bytes_eq key other then none else get m other)
  unfolding get remove
  get-remove [] key other = elim (Bool-cases (bytes_eq key other)) [
    | inl h ↦ rw h refl
    | inr h ↦ rw h refl
  ]
  get-remove (x ∷ m) key other = elim (Bool-cases (bytes_eq x.0 key)) [
    | inl e ↦
        rw (e, get-remove m key other, bytes_eq_trans x.0 key other e)
          (elim (Bool-cases (bytes_eq key other)) [ inl h ↦ rw h refl | inr h ↦ rw h refl ])
    | inr e ↦ rw e (elim (Bool-cases (bytes_eq x.0 other)) [
      | inl h ↦ rw (h, not_both x.0 key other e h) refl
      | inr h ↦ rw (h, get-remove m key other) refl
    ])
  ]
