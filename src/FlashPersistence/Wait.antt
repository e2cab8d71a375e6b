-- ===== src/FlashPersistence/Wait.antt =====
-- The loop that waits for the flash controller.
use deus_os_stm.Common.{
  ℕ, zero, suc, ◌+◌, ◌≤◌, ◌≡◌, ◌↔◌, inl, inr, refl, sym, ap, ◌∙◌, Bool, true, false, arith,
  Bool-cases,
}
use deus_os_stm.FlashPersistence.{wait_ready}

wait_again :
    (busy : ℕ → Bool) (reading spins : ℕ)
    → busy reading ≡ true
    → wait_ready busy reading (suc spins) ≡ wait_ready busy (reading + 1) spins
unfolding wait_ready
wait_again busy reading spins e = rw (wait_ready, e) refl

wait_over :
    (busy : ℕ → Bool) (reading spins : ℕ)
    → busy reading ≡ false
    → wait_ready busy reading (suc spins) ≡ true
unfolding wait_ready
wait_over busy reading spins e = rw (wait_ready, e) refl

wait_ready-not_busy :
    (busy : ℕ → Bool) (reading spins k : ℕ)
    → k ≤ spins
    → busy (reading + k) ≡ false
    → wait_ready busy reading spins ≡ true
unfolding wait_ready
wait_ready-not_busy busy reading zero k h e =
    let here : reading + k ≡ reading = omega arith in
    let free : busy reading ≡ false = ap busy (sym here) ∙ e in rw free refl
wait_ready-not_busy busy reading (suc spins) k h e = elim (Bool-cases (busy reading)) [
  | inl t ↦
      wait_again busy reading spins t
      ∙ later (λ k h e. wait_ready-not_busy busy (reading + 1) spins k h e) t k h e
  | inr f ↦ wait_over busy reading spins f
]
  where
    later :
        ((k : ℕ)
          → k ≤ spins
          → busy (reading + 1 + k) ≡ false
          → wait_ready busy (reading + 1) spins ≡ true)
        → busy reading ≡ true
        → (k : ℕ) → k ≤ suc spins
        → busy (reading + k) ≡ false
        → wait_ready busy (reading + 1) spins ≡ true
    later ih t zero h e =
        let here : reading + 0 ≡ reading = omega arith in
        let free = ap busy (sym here) ∙ e in absurd (ground arith)
    later ih t (suc k) h e =
        let there : reading + 1 + k ≡ reading + suc k = omega arith in
        ih k (omega arith) (ap busy there ∙ e)

-- The readings of BSY up to the last one that is 0.
wait_ready-reading :
    (busy : ℕ → Bool) (reading spins : ℕ)
    → wait_ready busy reading spins ≡ true
    → (k : ℕ) × (k ≤ spins) × (busy (reading + k) ≡ false)
unfolding wait_ready
wait_ready-reading busy reading zero e =
    (0, omega arith, let here : reading + 0 ≡ reading = omega arith in ap busy here ∙ ground arith)
wait_ready-reading busy reading (suc spins) e = elim (Bool-cases (busy reading)) [
  | inl t ↦
      let (k, h, f) =
        wait_ready-reading busy (reading + 1) spins (sym (wait_again busy reading spins t) ∙ e) in
      let there : reading + suc k ≡ reading + 1 + k = omega arith in
      (suc k, omega arith, ap busy there ∙ f)
  | inr f ↦ (0, omega arith, let here : reading + 0 ≡ reading = omega arith in ap busy here ∙ f)
]

-- The loop ends after at most one reading more than its spins, and it succeeds exactly if BSY is 0
-- in one of these readings.
pub wait_ready-IsReady :
    (busy : ℕ → Bool) (reading spins : ℕ)
    → (wait_ready busy reading spins ≡ true)
      ↔ ((k : ℕ) × (k ≤ spins) × (busy (reading + k) ≡ false))
wait_ready-IsReady busy reading spins = (
  wait_ready-reading busy reading spins,
  λ (k, h, e). wait_ready-not_busy busy reading spins k h e,
)
