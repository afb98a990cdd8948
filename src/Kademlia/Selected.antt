-- ===== src/Kademlia/Selected.antt =====
-- The peers above a threshold of agreement, as a sorted list is cut off.
use mathlib.Core.List.{Mem, Mem-prop, mem-cons, mem-cons_self, mem-cons_of_mem, not-mem-nil}
use mathlib.Core.List.{exists_of_mem-map, mem-map_of_mem}
use mathlib.Core.List.Perm
use mathlib.Core.Logic.Or
use mathlib.Core.Logic.{∥∥₁_elim}
use mathlib.Core.HLevel.{×_prop, ⊥_prop}
use native.Mathlib.Nat.{ℕ_set}
use native.Mathlib.Bridge.{le_prop}
use hashiverse.Prelude.{
  ℕ, suc, ◌≤◌, ◌≡◌, refl, sym, ◌∙◌, ap, subst, arith, leb, Bool-cases, inl, inr, ◌↔◌, some, List,
  [], ◌∷◌, map, length, get_elem?, zero, All-mem,
}
use hashiverse.Agreement.{leading_agreement_bits_xor}
use hashiverse.Kademlia.{PeerTrait}
use hashiverse.Kademlia.Distinct.{All-get_elem?}
use hashiverse.Kademlia.Select.{SortUnstable, IsDescending, take_while, agreements}

module _ {A : Type 0} where
  take_while-mem :
      (low : ℕ) (xs : List (ℕ × A)) (x : ℕ × A) → Mem x (take_while low xs) → Mem x xs × (low ≤ x.0)
  unfolding take_while
  take_while-mem low [] x m = absurd (not-mem-nil m)
  take_while-mem low (y ∷ ys) x m = elim (Bool-cases (leb low y.0)) [
    | inl e ↦
        Or.elim (×_prop Mem-prop le_prop) (mem-cons.0 (rw e at m))
          (λ here. (rw here mem-cons_self, rw here (ground arith)))
          (λ later. let r = take_while-mem low ys x later in (mem-cons_of_mem y r.0, r.1))
    | inr e ↦ absurd (not-mem-nil (rw e at m))
  ]

  mem-take_while :
      (low : ℕ) (xs : List (ℕ × A)) (x : ℕ × A)
      → IsDescending xs
      → Mem x xs
      → low ≤ x.0
      → Mem x (take_while low xs)
  unfolding take_while
  mem-take_while low [] x d m h = absurd (not-mem-nil m)
  mem-take_while low (y ∷ ys) x d m h = elim (Bool-cases (leb low y.0)) [
    | inl e ↦ rw e (
        Or.elim Mem-prop (mem-cons.0 m) (λ here. rw here mem-cons_self)
          (λ later. mem-cons_of_mem y (mem-take_while low ys x d.1 later h)))
    | inr e ↦ absurd (
        Or.elim ⊥_prop (mem-cons.0 m) (λ here. ground (arith, ap (λ (z : ℕ × A). z.0) here))
          (λ later. ground (arith, All-mem (λ z. le_prop) ys d.0 later)))
  ]

module _ (P : PeerTrait) (S : SortUnstable P.Peer) (key : List ℕ) where
  open P use {Peer, id}
  open S use {sort}

  agreements-mem :
      (c : List Peer) (x : ℕ × Peer)
      → Mem x (agreements P S key c)
      → (x.0 ≡ leading_agreement_bits_xor key (id x.1)) × Mem x.1 c
  unfolding agreements
  agreements-mem c x m = ∥∥₁_elim (exists_of_mem-map m) (×_prop (ℕ_set _ _) Mem-prop) (λ t. (
    ap (λ (z : ℕ × Peer). z.0) (sym t.2)
        ∙ ap (λ (z : ℕ × Peer). leading_agreement_bits_xor key (id z.1)) t.2,
    subst (λ z. Mem z c) (ap (λ (z : ℕ × Peer). z.1) t.2) t.1,
  ))

  -- The result of a call is what agrees with the key in at least `low` bits.
  pub selected :
      (c : List Peer) (low : ℕ) (p : Peer)
      → Mem p (map (λ x. x.1) (take_while low (sort (agreements P S key c))))
        ↔ (Mem p c × (low ≤ leading_agreement_bits_xor key (id p)))
  unfolding agreements
  selected c low p = (forward, backward)
    where
      forward :
          Mem p (map (λ x. x.1) (take_while low (sort (agreements P S key c))))
          → Mem p c × (low ≤ leading_agreement_bits_xor key (id p))
      forward m = ∥∥₁_elim (exists_of_mem-map m) (×_prop Mem-prop le_prop) (λ t.
          let r = take_while-mem low (sort (agreements P S key c)) t.0 t.1 in
          let a = agreements-mem c t.0 ((Perm.mem_iff (S.sort-perm _)).0 r.0) in
          (
            subst (λ z. Mem z c) t.2 a.1,
            subst (λ z. low ≤ leading_agreement_bits_xor key (id z)) t.2 (rw a.0 at r.1),
          ))

      backward :
          Mem p c × (low ≤ leading_agreement_bits_xor key (id p))
          → Mem p (map (λ x. x.1) (take_while low (sort (agreements P S key c))))
      backward h =
          mem-map_of_mem (λ x. x.1) {a = (leading_agreement_bits_xor key (id p), p)}
            (mem-take_while low (sort (agreements P S key c)) _ (S.sort-IsDescending _)
              ((Perm.mem_iff (S.sort-perm _)).1
                (mem-map_of_mem (λ q. (leading_agreement_bits_xor key (id q), q)) h.0))
              h.1)

-- At the place of the last peer that was asked for, the threshold lets at least that many pass.
pub length-take_while :
    {A : Type 0} (xs : List (ℕ × A)) (i : ℕ) (x : ℕ × A)
    → IsDescending xs
    → get_elem? xs i ≡ some x
    → suc i ≤ length (take_while x.0 xs)
unfolding take_while
length-take_while [] i x d e = cc
length-take_while (y ∷ xs) zero x d e = ground arith
length-take_while (y ∷ xs) (suc i) x d e =
    ground (arith, All-get_elem? (λ z. z.0 ≤ y.0) xs i d.0 e, length-take_while xs i x d.1)

pub length-take_while_zero : {A : Type 0} (xs : List (ℕ × A)) → length (take_while 0 xs) ≡ length xs
unfolding take_while
length-take_while_zero [] = refl
length-take_while_zero (x ∷ xs) = ground (arith, length-take_while_zero xs)
