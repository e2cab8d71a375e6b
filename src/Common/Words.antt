-- ===== src/Common/Words.antt =====
-- Machine words are numbers: a cast is a remainder, a shift by k a product or quotient by 2 ^ k.
-- `lo | hi << 8` of two bytes is written `lo + 256 * hi`: the two have no bit in common.
use Prim.Native.Nat.{ℕ, zero, suc, ◌<◌}
use native.Mathlib.Omega.{arith}
use mathlib.Core.List.{List, [], ◌∷◌, ◌++◌}
use deus_os_stm.Common.Lists.{take, drop, get_or}

abbrev pub u8_mod : ℕ
u8_mod = 256

abbrev pub u16_mod : ℕ
u16_mod = 65536

abbrev pub u32_mod : ℕ
u32_mod = 4294967296

-- A predicate on every element of an array.
abbrev pub All {ℓ κ} : {A : Type ℓ} → (A → Type κ) → List A → Type κ
All P [] = Unit
All P (x ∷ xs) = P x × All P xs

abbrev pub IsByte : ℕ → Type 0
IsByte b = b < u8_mod

abbrev pub AreBytes : List ℕ → Type 0
AreBytes = All IsByte

pub All-append {ℓ κ} :
    {A : Type ℓ} (P : A → Type κ) (xs ys : List A) → All P xs → All P ys → All P (xs ++ ys)
All-append P [] ys hx hy = hy
All-append P (x ∷ xs) ys hx hy = (hx.0, All-append P xs ys hx.1 hy)

pub All-take {ℓ κ} :
    {A : Type ℓ} (P : A → Type κ) (n : ℕ) (xs : List A) → All P xs → All P (take n xs)
All-take P zero xs h = tt
All-take P (suc n) [] h = tt
All-take P (suc n) (x ∷ xs) h = (h.0, All-take P n xs h.1)

pub All-drop {ℓ κ} :
    {A : Type ℓ} (P : A → Type κ) (n : ℕ) (xs : List A) → All P xs → All P (drop n xs)
All-drop P zero xs h = h
All-drop P (suc n) [] h = h
All-drop P (suc n) (x ∷ xs) h = All-drop P n xs h.1

pub byte_at : (xs : List ℕ) (i : ℕ) → AreBytes xs → get_or xs i 0 < u8_mod
byte_at [] i h = omega arith
byte_at (x ∷ xs) zero h = h.0
byte_at (x ∷ xs) (suc i) h = byte_at xs i h.1
