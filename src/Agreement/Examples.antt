-- ===== src/Agreement/Examples.antt =====
-- Runs of the metric, and its laws at concrete keys.
use hashiverse.Prelude.{◌≡◌, refl, arith, List, ℕ, [], ◌∷◌, replicate}
use hashiverse.Agreement.{leading_agreement_bits_xor, count_leading_zero_bits}
use hashiverse.Agreement.Bits.{bits, shared}
use hashiverse.Agreement.Laws.{leading_agreement_bits_xor-shared}

abbrev key_a : List ℕ
key_a = 0xab ∷ 0xc0 ∷ []

abbrev key_b : List ℕ
key_b = 0xab ∷ 0x80 ∷ []

abbrev key_c : List ℕ
key_c = 0xab ∷ 0x9f ∷ []

agreement_a_b : leading_agreement_bits_xor key_a key_b ≡ 9
unfolding leading_agreement_bits_xor
agreement_a_b = refl

agreement_a_c : leading_agreement_bits_xor key_a key_c ≡ 9
unfolding leading_agreement_bits_xor
agreement_a_c = refl

zeros_long : count_leading_zero_bits (replicate 32 0) ≡ 255
unfolding count_leading_zero_bits
zeros_long = refl

leading_agreement_bits_xor-shared_example :
    leading_agreement_bits_xor key_a key_b ≡ shared (bits key_a) (bits key_b)
leading_agreement_bits_xor-shared_example =
    leading_agreement_bits_xor-shared key_a key_b (omega arith) (omega arith)
