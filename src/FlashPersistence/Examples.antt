-- ===== src/FlashPersistence/Examples.antt =====
-- The flash driver with a controller that does what it is told.
use deus_os_stm.Common.{
  ℕ, ◌+◌, ◌/◌, ◌%◌, ◌≤◌, ◌≡◌, ◌↔◌, inl, true, false, ◌&&◌, [], ◌∷◌, leb, ltb, ◌==◌, if◌then◌else◌,
  arith,
}
use deus_os_stm.FlashPersistence.{
  Bytes, Chip, Flash, page_size, ready_spin_limit, slot_a_address, wait_ready, erase_page,
  program_halfword,
}
use deus_os_stm.FlashPersistence.Frame.{IsChip, firmware-IsKept}
use deus_os_stm.FlashPersistence.Wait.{wait_ready-IsReady}

abbrev pub erased : Bytes → ℕ → Bytes
erased m page a = if leb page a && ltb a (page + page_size) then 255 else m a

abbrev pub programmed : Bytes → ℕ → ℕ → Bytes
programmed m address value a =
    if a == address then value % 256 else if a == address + 1 then value / 256 % 256 else m a

abbrev pub chip : Chip
chip = record {
  execute = λ run operation address value m. record {
    hsi_ready = true;
    busy_before = λ _. false;
    unlocked = true;
    busy_after = λ _. false;
    cycles = 100;
    status = 0x20;
    memory = if operation == 0 then erased m address else programmed m address value;
  };
  cycle_count = λ run. run;
}

pub chip-IsChip : IsChip chip
chip-IsChip = record {
  erases = λ run page value a m h. ground arith;
  programs = λ run address value a m h. ground arith;
}

abbrev pub blank : Flash
blank = record {
  memory = λ _. 255;
  attempt_count = 0 ∷ 0 ∷ [];
  last_bsy_cycles = 0 ∷ 0 ∷ [];
  max_bsy_cycles = 0 ∷ 0 ∷ [];
  storage_error_count = 0;
  runs = 0;
}

firmware-IsKept_example :
    ((erase_page chip blank slot_a_address).1.memory 0x08000000 ≡ 255)
    × ((program_halfword chip blank slot_a_address 0x1234).1.memory 0x08000000 ≡ 255)
firmware-IsKept_example =
    firmware-IsKept chip chip-IsChip blank slot_a_address 0x1234 0x08000000 (inl (omega arith))

wait_ready-IsReady_example :
    (wait_ready (λ n. ltb n 3) 0 ready_spin_limit ≡ true)
    ↔ ((k : ℕ) × (k ≤ ready_spin_limit) × (ltb (0 + k) 3 ≡ false))
wait_ready-IsReady_example = wait_ready-IsReady (λ n. ltb n 3) 0 ready_spin_limit
