-- ===== src/Common/Masks.antt =====
-- The single bits of masks: what `&`, `|` and `~` do to them.
use Prim.Native.Nat.{
  ℕ, zero, suc, ◌+◌, ◌-◌, ◌*◌, ◌/◌, ◌%◌, ◌≤◌, ◌<◌, min, max, bit_and, bit_or, bit_and-bitwise,
  bit_or-bitwise,
}
use native.Mathlib.Omega.{arith}
use mathlib.Core.Path.{◌≡◌, refl, ap, ◌∙◌}
use deus_os_stm.Common.Bits.{digits-enough}

-- The bit `i` of a number.
abbrev pub bit : ℕ → ℕ → ℕ
bit zero x = x % 2
bit (suc i) x = bit i (x / 2)

abbrev pub HasBit : ℕ → ℕ → Type 0
HasBit i x = bit i x ≡ 1

bit_and-half : (a b : ℕ) → bit_and a b ≡ bit_and (a / 2) (b / 2) * 2 + min (a % 2) (b % 2)
bit_and-half zero b = simp bit_and-bitwise (omega arith)
bit_and-half (suc a) b = simp bit_and-bitwise (
    ap (λ x. x * 2 + min (suc a % 2) (b % 2))
      (digits-enough (λ b. zero) min a (suc a / 2) (suc a / 2) (b / 2) (omega arith) (omega arith)))

bit_or-half : (a b : ℕ) → bit_or a b ≡ bit_or (a / 2) (b / 2) * 2 + max (a % 2) (b % 2)
bit_or-half zero b = simp bit_or-bitwise (omega arith)
bit_or-half (suc a) b = simp bit_or-bitwise (
    ap (λ x. x * 2 + max (suc a % 2) (b % 2))
      (digits-enough (λ b. b) max a (suc a / 2) (suc a / 2) (b / 2) (omega arith) (omega arith)))

pub bit-lt : (i x : ℕ) → bit i x < 2
bit-lt zero x = omega arith
bit-lt (suc i) x = bit-lt i (x / 2)

pub bit-bit_and : (i a b : ℕ) → bit i (bit_and a b) ≡ min (bit i a) (bit i b)
bit-bit_and zero a b = omega (arith, bit_and-half a b)
bit-bit_and (suc i) a b =
    let half : bit_and a b / 2 ≡ bit_and (a / 2) (b / 2) = omega (arith, bit_and-half a b) in
    ap (bit i) half ∙ bit-bit_and i (a / 2) (b / 2)

pub bit-bit_or : (i a b : ℕ) → bit i (bit_or a b) ≡ max (bit i a) (bit i b)
bit-bit_or zero a b = omega (arith, bit_or-half a b)
bit-bit_or (suc i) a b =
    let half : bit_or a b / 2 ≡ bit_or (a / 2) (b / 2) = omega (arith, bit_or-half a b) in
    ap (bit i) half ∙ bit-bit_or i (a / 2) (b / 2)

pub bit-zero : (i : ℕ) → bit i 0 ≡ 0
bit-zero zero = refl
bit-zero (suc i) = bit-zero i

-- A word of `bits` ones.
abbrev pub ones : ℕ → ℕ
ones zero = 0
ones (suc bits) = ones bits * 2 + 1

pub bit-complement : (bits i x : ℕ) → i < bits → x ≤ ones bits → bit i (ones bits - x) ≡ 1 - bit i x
bit-complement zero i x h k = absurd (omega arith)
bit-complement (suc bits) zero x h k = omega arith
bit-complement (suc bits) (suc i) x h k =
    let half : (ones bits * 2 + 1 - x) / 2 ≡ ones bits - x / 2 = omega arith in
    ap (bit i) half ∙ bit-complement bits i (x / 2) (omega arith) (omega arith)

bit_and-zero : (n a : ℕ) → a ≤ n → bit_and a 0 ≡ 0
bit_and-zero n zero h = simp bit_and-bitwise refl
bit_and-zero zero (suc a) h = absurd (omega arith)
bit_and-zero (suc n) (suc a) h =
    omega (arith, bit_and-half (suc a) 0, bit_and-zero n (suc a / 2) (omega arith))

pub bit_and-ones : (bits a b : ℕ) → b ≤ ones bits → bit_and a b ≤ ones bits
bit_and-ones zero a b h =
    let none : b ≡ 0 = omega arith in rw none (omega (arith, bit_and-zero a a (omega arith)))
bit_and-ones (suc bits) a b h =
    omega (arith, bit_and-half a b, bit_and-ones bits (a / 2) (b / 2) (omega arith))

pub bit_or-ones : (bits a b : ℕ) → a ≤ ones bits → b ≤ ones bits → bit_or a b ≤ ones bits
bit_or-ones zero a b h k =
    let left : a ≡ 0 = omega arith in
    let right : b ≡ 0 = omega arith in rw (left, right) (simp bit_or-bitwise (omega arith))
bit_or-ones (suc bits) a b h k =
    omega (arith, bit_or-half a b, bit_or-ones bits (a / 2) (b / 2) (omega arith) (omega arith))
