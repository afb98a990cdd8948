-- ===== src/Assoc.antt =====
-- A map from byte strings (an `Id` or a `String`), as `HashMap` and `BTreeMap` are used throughout.
pub mod Laws
use mathlib.Core.List.{List, [], ◌∷◌}
use hashiverse.Prelude.{
  ℕ, zero, suc, Bool, true, false, if◌then◌else◌, bytes_eq, Option, none, some,
}

abbrev pub Map {ℓ} : Type ℓ → Type ℓ
Map V = List (List ℕ × V)

module _ {ℓ} {V : Type ℓ} where
  unfoldable pub get : Map V → List ℕ → Option V
  get [] key = none
  get (x ∷ m) key = let rest = get m key in if bytes_eq x.0 key then some x.1 else rest

  -- Writes over the value of a key that is there.
  unfoldable pub insert : Map V → List ℕ → V → Map V
  insert [] key v = (key, v) ∷ []
  insert (x ∷ m) key v =
      let rest = insert m key v in if bytes_eq x.0 key then (key, v) ∷ m else x ∷ rest

  unfoldable pub remove : Map V → List ℕ → Map V
  remove [] key = []
  remove (x ∷ m) key = let rest = remove m key in if bytes_eq x.0 key then rest else x ∷ rest

  unfoldable pub or_default : Option V → V → V
  or_default none d = d
  or_default (some v) d = v
