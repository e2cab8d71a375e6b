-- ===== src/FlashPersistence.antt =====
-- src/drivers/flash_persistence.c: the two pages of flash that hold assets. The memory maps addresses
-- to bytes, and the little-endian loads of the core are written out. The flash controller is a
-- parameter: what its registers and the memory show in each run of `flash_execute`.
pub mod Frame
pub mod Wait
pub mod Examples
use deus_os_stm.Common.{
  ℕ, zero, suc, ◌+◌, ◌-◌, ◌*◌, ◌%◌, Bool, true, false, ◌&&◌, ◌||◌, not, List, [], ◌∷◌, get_or, set,
  ltb, leb, ◌==◌, ◌!=◌, if◌then◌else◌, bit_and, u32_mod,
}

abbrev pub page_size : ℕ
page_size = 1024

abbrev pub slot_a_address : ℕ
slot_a_address = 0x0800F800

abbrev pub slot_b_address : ℕ
slot_b_address = 0x0800FC00

abbrev pub end_address : ℕ
end_address = 0x08010000

abbrev pub op_erase : ℕ
op_erase = 0

abbrev pub op_program : ℕ
op_program = 1

abbrev pub ready_spin_limit : ℕ
ready_spin_limit = 4000000

abbrev pub Bytes : Type 0
Bytes = ℕ → ℕ

abbrev pub read_u16 : Bytes → ℕ → ℕ
read_u16 m a = m a + 256 * m (a + 1)

abbrev pub read_u32 : Bytes → ℕ → ℕ
read_u32 m a = read_u16 m a + 65536 * read_u16 m (a + 2)

-- What the controller shows in a run of `flash_execute`: HSIRDY; BSY at each reading before and after
-- the operation; whether LOCK is clear, after the keys where they are needed; the cycles that have
-- passed; the error and end-of-operation bits; and the memory afterwards.
pub record Reply : Type 0 where
  pub hsi_ready : Bool
  pub busy_before : ℕ → Bool
  pub unlocked : Bool
  pub busy_after : ℕ → Bool
  pub cycles : ℕ
  pub status : ℕ
  pub memory : Bytes

-- A controller: its reply to each run, by the number of the run, the operation, the address, the
-- value and the memory; and the cycle counter between the runs.
pub record Chip : Type 0 where
  pub execute : ℕ → ℕ → ℕ → ℕ → Bytes → Reply
  pub cycle_count : ℕ → ℕ

-- The memory, the diagnostics, and the number of runs so far.
pub record Flash : Type 0 where
  pub memory : Bytes
  pub attempt_count : List ℕ
  pub last_bsy_cycles : List ℕ
  pub max_bsy_cycles : List ℕ
  pub storage_error_count : ℕ
  pub runs : ℕ

-- `flash_address_owned`
abbrev pub address_owned : ℕ → Bool
address_owned address =
    leb slot_a_address address && ltb address (end_address - 1) && address % 2 == 0

-- The loop of `flash_wait_ready` from a reading of BSY on, with the spins that are left.
unfoldable pub wait_ready : (ℕ → Bool) → ℕ → ℕ → Bool
wait_ready busy reading zero = not (busy reading)
wait_ready busy reading (suc spins) = elim (busy reading) [
  | true ↦ wait_ready busy (reading + 1) spins
  | false ↦ true
]

abbrev pub counted_error : Flash → Flash
counted_error f = record f { storage_error_count = (f.storage_error_count + 1) % u32_mod }

abbrev pub failed_run : Flash → Bool × Flash
failed_run f = (false, counted_error f)

-- `flash_execute` from the start of the operation on.
unfoldable pub run_operation : Flash → ℕ → Reply → Bool × Flash
run_operation f operation r =
    let started = record f {
      memory = r.memory;
      attempt_count =
          set f.attempt_count operation ((get_or f.attempt_count operation 0 + 1) % u32_mod);
    } in
    let measured = record started {
      last_bsy_cycles = set f.last_bsy_cycles operation r.cycles;
      max_bsy_cycles =
          if ltb (get_or f.max_bsy_cycles operation 0) r.cycles
          then set f.max_bsy_cycles operation r.cycles
          else f.max_bsy_cycles;
    } in
    if not (wait_ready r.busy_after 0 ready_spin_limit)
    then failed_run started
    else if bit_and r.status 0x34 == 0x20
    then (true, measured)
    else failed_run measured

-- Every halfword is erased: the loop of `flash_persistence_erase_page`.
unfoldable pub is_blank : Bytes → ℕ → ℕ → Bool
is_blank m at zero = true
is_blank m at (suc n) = elim (read_u16 m at == 0xFFFF) [
  | true ↦ is_blank m (at + 2) n
  | false ↦ false
]

module _ (chip : Chip) where
  -- `flash_execute`
  unfoldable pub execute : Flash → ℕ → ℕ → ℕ → Bool × Flash
  execute f address value operation =
      let r = chip.execute f.runs operation address value f.memory in
      let g = record f { runs = f.runs + 1 } in
      if not r.hsi_ready
      then failed_run g
      else if not (wait_ready r.busy_before 0 ready_spin_limit)
      then failed_run g
      else if not r.unlocked
      then failed_run g
      else run_operation g operation r

  -- `flash_persistence_erase_page`
  unfoldable pub erase_page : Flash → ℕ → Bool × Flash
  erase_page f page =
      let r = execute f page 0 op_erase in
      if page != slot_a_address && page != slot_b_address
      then (false, f)
      else if not r.0
      then (false, r.1)
      else if is_blank r.1.memory page 512
      then (true, r.1)
      else failed_run r.1

  -- `flash_persistence_program_halfword`
  unfoldable pub program_halfword : Flash → ℕ → ℕ → Bool × Flash
  program_halfword f address value =
      let r = execute f address value op_program in
      if not (address_owned address)
      then (false, f)
      else if value == 0xFFFF
      then (read_u16 f.memory address == 0xFFFF, f)
      else if read_u16 f.memory address != 0xFFFF
      then failed_run f
      else if not r.0
      then (false, r.1)
      else if read_u16 r.1.memory address != value
      then failed_run r.1
      else (true, r.1)
