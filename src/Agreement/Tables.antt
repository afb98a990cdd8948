-- ===== src/Agreement/Tables.antt =====
-- What the byte operations of the metric do to bits, checked on every byte and pair of bytes.
use Prim.Native.Nat.{bit_xor}
use hashiverse.Prelude.{
  ℕ, zero, suc, ◌<◌, ◌≡◌, refl, arith, Bool, true, false, ◌&&◌, List, [], ◌∷◌, ◌+◌, ◌*◌, ap, sym,
  ◌∙◌, ◌==◌, if◌then◌else◌, ==_iff,
}
use hashiverse.Agreement.{leading_zeros, mask_loop}
use hashiverse.Agreement.Bits.{byte_bits, shared}

module _ (test : ℕ → Bool) where
  passes : ℕ → Bool
  passes zero = true
  passes (suc bound) = passes bound && test bound

  test_of_passes : (bound a : ℕ) → a < bound → passes bound ≡ true → test a ≡ true
  unfolding passes
  test_of_passes zero a below h = absurd (omega arith)
  test_of_passes (suc bound) a below h = ground (arith, test_of_passes bound a)

agree : ℕ → ℕ → Bool
unfolding leading_zeros shared byte_bits
agree a b = leading_zeros (bit_xor a b) == shared (byte_bits a) (byte_bits b)

agree_table : passes (λ a. passes (agree a) 256) 256 ≡ true
unfolding passes agree
agree_table = refl

pub leading_zeros-bit_xor :
    (a b : ℕ) → a < 256 → b < 256 → leading_zeros (bit_xor a b) ≡ shared (byte_bits a) (byte_bits b)
unfolding agree
leading_zeros-bit_xor a b ha hb = (==_iff _ _).0 (
    test_of_passes (agree a) 256 b hb
      (test_of_passes (λ x. passes (agree x) 256) 256 a ha agree_table))

pub leading_zeros-eq-8 : (x : ℕ) → (leading_zeros x == 8) ≡ (x == 0)
unfolding leading_zeros
leading_zeros-eq-8 x = ground arith

scan : ℕ → Bool
unfolding shared byte_bits mask_loop
scan a = mask_loop 8 a 0x80 0 == shared (byte_bits a) (byte_bits 0)

scan_table : passes scan 256 ≡ true
unfolding passes scan
scan_table = refl

pub mask_loop_lem : (a : ℕ) → a < 256 → mask_loop 8 a 0x80 0 ≡ shared (byte_bits a) (byte_bits 0)
unfolding scan
mask_loop_lem a h = (==_iff _ _).0 (test_of_passes scan 256 a h scan_table)

value : ℕ → List Bool → ℕ
value n [] = n
value n (true ∷ bs) = value (2 * n + 1) bs
value n (false ∷ bs) = value (2 * n) bs

back : ℕ → Bool
unfolding value byte_bits
back a = value 0 (byte_bits a) == a

back_table : passes back 256 ≡ true
unfolding passes back
back_table = refl

value-byte_bits : (a : ℕ) → a < 256 → value 0 (byte_bits a) ≡ a
unfolding back
value-byte_bits a h = (==_iff _ _).0 (test_of_passes back 256 a h back_table)

pub byte_bits-injective : (a b : ℕ) → a < 256 → b < 256 → byte_bits a ≡ byte_bits b → a ≡ b
byte_bits-injective a b ha hb e = sym (value-byte_bits a ha) ∙ ap (value 0) e ∙ value-byte_bits b hb

zeros : ℕ → Bool
unfolding shared byte_bits
zeros a =
    if a == 0
    then shared (byte_bits a) (byte_bits 0) == 8
    else if shared (byte_bits a) (byte_bits 0) == 8
    then false
    else true

zeros_table : passes zeros 256 ≡ true
unfolding passes zeros
zeros_table = refl

zeros_at : (a : ℕ) → a < 256 → zeros a ≡ true
zeros_at a h = test_of_passes zeros 256 a h zeros_table

pub zero-byte : (a : ℕ) → a < 256 → (shared (byte_bits a) (byte_bits 0) == 8) ≡ (a == 0)
unfolding zeros
zero-byte a h = ground (arith, zeros_at a h)
