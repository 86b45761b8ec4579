-- ===== src/Base/Bits.antt =====
-- `&` with a mask of ones and `|` of disjoint halves, as arithmetic: the operations on digits come
-- without laws.
use Prim.Native.Nat.{
  ℕ, zero, suc, ◌+◌, ◌-◌, ◌*◌, ◌/◌, ◌%◌, ◌≤◌, ◌<◌, min, max, bit_and, bit_or, digits, bitwise,
  bit_and-bitwise, bit_or-bitwise,
}
use mathlib.Core.Path.{◌≡◌, refl, ap, sym, ◌∙◌}
use native.Mathlib.Omega.{arith}

-- Rounds of the recursion on the digits that are not needed.
module _ (left : ℕ → ℕ) (join : ℕ → ℕ → ℕ) where
  digits_spare : (k a b : ℕ) → a ≤ k → digits left join (suc k) a b ≡ digits left join k a b
  digits_spare zero zero b l = refl
  digits_spare (suc k) zero b l = refl
  digits_spare zero (suc a) b l = absurd (omega (arith, l))
  digits_spare (suc k) (suc a) b l =
      let half : suc a / 2 ≤ k = omega (arith, l) in
      omega (arith, digits_spare k (suc a / 2) (b / 2) half)

  digits_more : (j k a b : ℕ) → a ≤ k → digits left join (j + k) a b ≡ digits left join k a b
  digits_more zero k a b l =
      let none : 0 + k ≡ k = omega arith in ap (λ n. digits left join n a b) none
  digits_more (suc j) k a b l =
      let first : suc j + k ≡ suc (j + k) = omega arith in
      ap (λ n. digits left join n a b) first
      ∙ digits_spare (j + k) a b (omega (arith, l))
      ∙ digits_more j k a b l

  bitwise_halves :
      (a b : ℕ)
      → bitwise left join (suc a) b
        ≡ bitwise left join (suc a / 2) (b / 2) * 2 + join (suc a % 2) (b % 2)
  bitwise_halves a b =
      let h = suc a / 2 in
      let apart : (a - h) + h ≡ a = omega arith in
      ap (λ r. r * 2 + join (suc a % 2) (b % 2))
        (ap (λ k. digits left join k h (b / 2)) (sym apart)
          ∙ digits_more (a - h) h h (b / 2) (omega arith))

bit_and-halves : (a b : ℕ) → bit_and a b ≡ bit_and (a / 2) (b / 2) * 2 + min (a % 2) (b % 2)
bit_and-halves zero b = omega (arith, bit_and-bitwise 0 b, bit_and-bitwise 0 (b / 2))
bit_and-halves (suc a) b = omega (
  arith,
  bit_and-bitwise (suc a) b,
  bit_and-bitwise (suc a / 2) (b / 2),
  bitwise_halves (λ b. zero) min a b,
)

bit_or-halves : (a b : ℕ) → bit_or a b ≡ bit_or (a / 2) (b / 2) * 2 + max (a % 2) (b % 2)
bit_or-halves zero b = omega (arith, bit_or-bitwise 0 b, bit_or-bitwise 0 (b / 2))
bit_or-halves (suc a) b = omega (
  arith,
  bit_or-bitwise (suc a) b,
  bit_or-bitwise (suc a / 2) (b / 2),
  bitwise_halves (λ b. b) max a b,
)

no_digits : (k a : ℕ) → digits (λ b. zero) min k a 0 ≡ 0
no_digits zero zero = refl
no_digits zero (suc a) = refl
no_digits (suc k) zero = refl
no_digits (suc k) (suc a) = omega (arith, no_digits k (suc a / 2))

no_bits : (a : ℕ) → bit_and a 0 ≡ 0
no_bits a = bit_and-bitwise a 0 ∙ no_digits a a

bit_and_15 : (a : ℕ) → bit_and a 15 ≡ a % 16
bit_and_15 a = omega (
  arith,
  bit_and-halves a 15,
  bit_and-halves (a / 2) 7,
  bit_and-halves (a / 2 / 2) 3,
  bit_and-halves (a / 2 / 2 / 2) 1,
  no_bits (a / 2 / 2 / 2 / 2),
)

pub bit_and_255 : (a : ℕ) → bit_and a 255 ≡ a % 256
bit_and_255 a = omega (
  arith,
  bit_and-halves a 255,
  bit_and-halves (a / 2) 127,
  bit_and-halves (a / 2 / 2) 63,
  bit_and-halves (a / 2 / 2 / 2) 31,
  bit_and_15 (a / 2 / 2 / 2 / 2),
)

bit_or_even : (a b c : ℕ) → b ≡ c * 2 → bit_or a b ≡ bit_or (a / 2) c * 2 + a % 2
bit_or_even a b c e =
    let half : b / 2 ≡ c = omega (arith, e) in
    omega (arith, bit_or-halves a b, ap (bit_or (a / 2)) half, e)

bit_or_16 : (a b c : ℕ) → b ≡ c * 16 → bit_or a b ≡ bit_or (a / 16) c * 16 + a % 16
bit_or_16 a b c e =
    let same : a / 2 / 2 / 2 / 2 ≡ a / 16 = omega arith in
    omega (
      arith,
      bit_or_even a b (c * 8) (omega (arith, e)),
      bit_or_even (a / 2) (c * 8) (c * 4) (omega arith),
      bit_or_even (a / 2 / 2) (c * 4) (c * 2) (omega arith),
      bit_or_even (a / 2 / 2 / 2) (c * 2) c (omega arith),
      ap (λ x. bit_or x c) same,
    )

pub bit_or_byte : (a b : ℕ) → a < 256 → bit_or a (b * 256) ≡ a + b * 256
bit_or_byte a b l =
    let none_left : a / 16 / 16 ≡ 0 = omega (arith, l) in
    omega (
      arith,
      bit_or_16 a (b * 256) (b * 16) (omega arith),
      bit_or_16 (a / 16) (b * 16) b refl,
      ap (λ x. bit_or x b) none_left,
      bit_or-bitwise 0 b,
    )
