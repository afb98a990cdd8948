-- ===== src/Prelude/Members.antt =====
-- Membership in a list, from and to predicates by recursion.
use mathlib.Core.List.{List, [], ◌∷◌, Mem, mem-cons, not-mem-nil, mem-cons_self, mem-cons_of_mem}
use mathlib.Core.Logic.Or
use hashiverse.Prelude.Bytes.{All}

module _ {ℓ} {A : Type ℓ} where
  pub All-mem {κ} :
      {P : A → Type κ} (is_prop : (x : A) → IsProp (P x)) {x : A} (xs : List A)
      → All P xs
      → Mem x xs
      → P x
  All-mem is_prop [] h m = absurd (not-mem-nil m)
  All-mem {P = P} is_prop {x} (y ∷ xs) h m =
      Or.elim (is_prop x) (mem-cons.0 m) (λ e. rw e h.0) (All-mem is_prop xs h.1)

  pub All-of_mem {κ} : {P : A → Type κ} (xs : List A) → ((x : A) → Mem x xs → P x) → All P xs
  All-of_mem [] h = tt
  All-of_mem (x ∷ xs) h = (h x mem-cons_self, All-of_mem xs (λ y m. h y (mem-cons_of_mem x m)))

  pub All-map_mono {κ μ} :
      {P : A → Type κ} {Q : A → Type μ} (xs : List A) → ((x : A) → P x → Q x) → All P xs → All Q xs
  All-map_mono [] f h = tt
  All-map_mono (x ∷ xs) f h = (f x h.0, All-map_mono xs f h.1)
