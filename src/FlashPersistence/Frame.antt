-- ===== src/FlashPersistence/Frame.antt =====
-- What the operations leave of the memory.
use deus_os_stm.Common.{
  refl, Bool, ◌&&◌, ◌!=◌, not, if_intro, ℕ, zero, suc, ◌+◌, ◌*◌, ◌≤◌, ◌<◌, ◌≡◌, ◌⊎◌, ap, true,
  arith,
}
use deus_os_stm.FlashPersistence.{
  slot_a_address, slot_b_address, end_address, address_owned, page_size, op_erase, op_program,
  Bytes, read_u16, Reply, Chip, Flash, run_operation, is_blank, execute, erase_page,
  program_halfword,
}

-- The documented reach of the controller: an erasure changes its page only, and a program operation
-- its halfword only.
pub record IsChip (chip : Chip) : Type 0 where
  pub erases :
      (run page value a : ℕ) (m : Bytes)
      → (a < page) ⊎ (page + page_size ≤ a)
      → (chip.execute run op_erase page value m).memory a ≡ m a
  pub programs :
      (run address value a : ℕ) (m : Bytes)
      → (a < address) ⊎ (address + 2 ≤ a)
      → (chip.execute run op_program address value m).memory a ≡ m a

run_operation-memory :
    (f : Flash) (operation : ℕ) (r : Reply) → (run_operation f operation r).1.memory ≡ r.memory
unfolding run_operation
run_operation-memory f operation r = ground arith

module _ (chip : Chip) (v : IsChip chip) where
  execute_erase :
      (f : Flash) (page value a : ℕ)
      → (a < page) ⊎ (page + page_size ≤ a)
      → (execute chip f page value op_erase).1.memory a ≡ f.memory a
  unfolding execute
  execute_erase f page value a h =
      let r = chip.execute f.runs op_erase page value f.memory in
      let g = record f { runs = f.runs + 1 } in
      ground (
        arith,
        ap (λ m. m a) (run_operation-memory g op_erase r),
        v.erases f.runs page value a f.memory h,
      )

  execute_program :
      (f : Flash) (address value a : ℕ)
      → (a < address) ⊎ (address + 2 ≤ a)
      → (execute chip f address value op_program).1.memory a ≡ f.memory a
  unfolding execute
  execute_program f address value a h =
      let r = chip.execute f.runs op_program address value f.memory in
      let g = record f { runs = f.runs + 1 } in
      ground (
        arith,
        ap (λ m. m a) (run_operation-memory g op_program r),
        v.programs f.runs address value a f.memory h,
      )

  -- Neither result of an erasure has touched a byte outside the page.
  pub erase_page-memory :
      (f : Flash) (page a : ℕ)
      → (a < page) ⊎ (page + page_size ≤ a)
      → (erase_page chip f page).1.memory a ≡ f.memory a
  unfolding erase_page
  erase_page-memory f page a h = ground (arith, execute_erase f page 0 a h)

  pub program_halfword-memory :
      (f : Flash) (address value a : ℕ)
      → (a < address) ⊎ (address + 2 ≤ a)
      → (program_halfword chip f address value).1.memory a ≡ f.memory a
  unfolding program_halfword
  program_halfword-memory f address value a h = ground (arith, execute_program f address value a h)

is_blank-read :
    (m : Bytes) (at n k : ℕ) → is_blank m at n ≡ true → k < n → read_u16 m (at + 2 * k) ≡ 0xFFFF
unfolding is_blank
is_blank-read m at zero k e h = absurd (omega arith)
is_blank-read m at (suc n) zero e h =
    let here : at + 2 * 0 ≡ at = omega arith in rw here (ground arith)
is_blank-read m at (suc n) (suc k) e h =
    let next : at + 2 + 2 * k ≡ at + 2 * suc k = omega arith in
    rw next at (is_blank-read m (at + 2) n k (ground arith) (omega arith))

-- A page that was erased reads erased.
pub erase_page-read :
    (chip : Chip) (f : Flash) (page k : ℕ)
    → (erase_page chip f page).0 ≡ true
    → k < 512
    → read_u16 (erase_page chip f page).1.memory (page + 2 * k) ≡ 0xFFFF
unfolding erase_page
erase_page-read chip f page k e h =
    ground (arith, is_blank-read (execute chip f page 0 op_erase).1.memory page 512 k)

-- A halfword that was programmed reads as the value.
pub program_halfword-read :
    (chip : Chip) (f : Flash) (address value : ℕ)
    → (program_halfword chip f address value).0 ≡ true
    → read_u16 (program_halfword chip f address value).1.memory address ≡ value
unfolding program_halfword
program_halfword-read chip f address value e = ground arith

-- A byte of the flash outside the two slots.
abbrev pub IsFirmware : ℕ → Type 0
IsFirmware a = (a < slot_a_address) ⊎ (end_address ≤ a)

module _ (chip : Chip) (v : IsChip chip) where
  program_halfword-firmware :
      (f : Flash) (address value a : ℕ)
      → IsFirmware a
      → (program_halfword chip f address value).1.memory a ≡ f.memory a
  unfolding program_halfword
  program_halfword-firmware f address value a h =
      if_intro (λ (r : Bool × Flash). r.1.memory a ≡ f.memory a) (not (address_owned address)) _ _
        (λ e. refl) (λ e. ground (arith, execute_program chip v f address value a (ground arith)))

  erase_page-firmware :
      (f : Flash) (page a : ℕ) → IsFirmware a → (erase_page chip f page).1.memory a ≡ f.memory a
  unfolding erase_page
  erase_page-firmware f page a h =
      if_intro (λ (r : Bool × Flash). r.1.memory a ≡ f.memory a)
        (page != slot_a_address && page != slot_b_address) _ _ (λ e. refl)
        (λ e. ground (arith, execute_erase chip v f page 0 a (ground arith)))

  -- Neither operation changes a byte outside the two slots, whatever page, address or value it is
  -- given and whatever it returns, as long as the controller changes the page or the halfword only
  -- that an operation is for.
  pub firmware-IsKept :
      (f : Flash) (at value a : ℕ)
      → IsFirmware a
      → ((erase_page chip f at).1.memory a ≡ f.memory a)
        × ((program_halfword chip f at value).1.memory a ≡ f.memory a)
  firmware-IsKept f at value a h =
      (erase_page-firmware f at a h, program_halfword-firmware f at value a h)
