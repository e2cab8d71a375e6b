-- ===== src/Common/Bits.antt =====
-- The exclusive or, bit by bit. The native operation is a recursion on binary digits with a count of
-- digits to go; here it is one equation for the lowest bit, and what follows from that.
use Prim.Native.Nat.{
  ℕ, zero, suc, ◌+◌, ◌*◌, ◌/◌, ◌%◌, ◌≤◌, ◌<◌, bit_xor, bit_xor-bitwise, digits, differ,
}
use native.Mathlib.Omega.{arith}
use mathlib.Core.Path.{◌≡◌, refl, sym, ap, ◌∙◌}

-- More digits to go than the number has make no difference.
pub digits-enough :
    (z : ℕ → ℕ) (f : ℕ → ℕ → ℕ) (n m a b : ℕ) → a ≤ n → a ≤ m → digits z f n a b ≡ digits z f m a b
digits-enough z f zero zero a b h k = refl
digits-enough z f zero (suc m) zero b h k = refl
digits-enough z f zero (suc m) (suc a) b h k = absurd (omega arith)
digits-enough z f (suc n) zero zero b h k = refl
digits-enough z f (suc n) zero (suc a) b h k = absurd (omega arith)
digits-enough z f (suc n) (suc m) zero b h k = refl
digits-enough z f (suc n) (suc m) (suc a) b h k =
    ap (λ x. x * 2 + f (suc a % 2) (b % 2))
      (digits-enough z f n m (suc a / 2) (b / 2) (omega arith) (omega arith))

-- The lowest bit, and the rest.
pub bit_xor-half : (a b : ℕ) → bit_xor a b ≡ bit_xor (a / 2) (b / 2) * 2 + differ (a % 2) (b % 2)
bit_xor-half zero b = simp bit_xor-bitwise (omega arith)
bit_xor-half (suc a) b = simp bit_xor-bitwise (
    ap (λ x. x * 2 + differ (suc a % 2) (b % 2))
      (digits-enough (λ b. b) differ a (suc a / 2) (suc a / 2) (b / 2) (omega arith) (omega arith)))

differ-zero : (x : ℕ) → differ x 0 ≡ x
differ-zero zero = refl
differ-zero (suc x) = refl

pub bit_xor-zero : (a : ℕ) → bit_xor a 0 ≡ a
bit_xor-zero a = below (suc a) a (omega arith)
  where
    below : (n a : ℕ) → a < n → bit_xor a 0 ≡ a
    below zero a h = absurd (omega arith)
    below (suc n) zero h = simp bit_xor-bitwise refl
    below (suc n) (suc a) h =
        bit_xor-half (suc a) 0
        ∙ omega (arith, below n (suc a / 2) (omega arith), differ-zero (suc a % 2))

-- The lowest bits of a number.
abbrev low : ℕ → ℕ → ℕ
low zero a = 0
low (suc bits) a = low bits (a / 2) * 2 + a % 2

differ-lt : (x y : ℕ) → x < 2 → y < 2 → differ x y < 2
differ-lt zero y h k = k
differ-lt (suc x) zero h k = h
differ-lt (suc x) (suc y) h k = differ-lt x y (omega arith) (omega arith)

-- The lowest bits of an exclusive or depend on the lowest bits only.
low-bit_xor :
    (bits a a' b b' : ℕ)
    → low bits a ≡ low bits a'
    → low bits b ≡ low bits b'
    → low bits (bit_xor a b) ≡ low bits (bit_xor a' b')
low-bit_xor zero a a' b b' h k = refl
low-bit_xor (suc bits) a a' b b' h k =
    let even : a % 2 ≡ a' % 2 = omega arith in
    let even' : b % 2 ≡ b' % 2 = omega arith in
    let ih = low-bit_xor bits (a / 2) (a' / 2) (b / 2) (b' / 2) (omega arith) (omega arith) in
    let d = differ-lt (a % 2) (b % 2) (omega arith) (omega arith) in
    let d' = differ-lt (a' % 2) (b' % 2) (omega arith) (omega arith) in
    let same : differ (a % 2) (b % 2) ≡ differ (a' % 2) (b' % 2) = rw (even, even') refl in
    let half : bit_xor a b / 2 ≡ bit_xor (a / 2) (b / 2) = omega (arith, bit_xor-half a b) in
    let half' : bit_xor a' b' / 2 ≡ bit_xor (a' / 2) (b' / 2) = omega (arith, bit_xor-half a' b') in
    let bit : bit_xor a b % 2 ≡ differ (a % 2) (b % 2) = omega (arith, bit_xor-half a b) in
    let bit' : bit_xor a' b' % 2 ≡ differ (a' % 2) (b' % 2) = omega (arith, bit_xor-half a' b') in
    rw (half, half', bit, bit', ih, same) refl

low-sixteen : (a : ℕ) → low 16 a ≡ a % 65536
low-sixteen a = omega arith

low-mod : (a : ℕ) → low 16 a ≡ low 16 (a % 65536)
low-mod a = low-sixteen a ∙ omega arith ∙ sym (low-sixteen (a % 65536))

-- An exclusive or modulo 2 ^ 16.
pub bit_xor-mod : (a b : ℕ) → bit_xor a b % 65536 ≡ bit_xor (a % 65536) (b % 65536) % 65536
bit_xor-mod a b =
    sym (low-sixteen (bit_xor a b))
    ∙ low-bit_xor 16 a (a % 65536) b (b % 65536) (low-mod a) (low-mod b)
    ∙ low-sixteen (bit_xor (a % 65536) (b % 65536))
