-- ===== src/Lib.antt =====
-- Verification library of the Deus OS firmware for the STM32F103.
--
-- The parts that are modelled, and the files that model them:
--   * Common: Boolean tests, arrays as lists, machine words as numbers.
--   * NodeLink: shared/node_link/src/deus_node_link.c, the link between a controller and a worker
--     node. NodeLink/Codec has dnl_encode, dnl_decode and dnl_validate_payload as `encode`, `decode`
--     and `validate_payload`, over the checksums of NodeLink/Crc; NodeLink/Stream has dnl_stream_feed
--     as `feed`; NodeLink/Worker has dnl_worker_process as `process`; NodeLink/Controller has
--     dnl_controller_hello, _request, _receive and _timeout as `hello`, `request`, `receive` and
--     `timeout`. NodeLink/Exchange and NodeLink/Handshake put the two sides together: what one
--     sends is what the other gets.
--   * BinaryFrame: src/kernel/binary_frame.c, the frames of the management protocol.
--     BinaryFrame/Parser has binary_frame_parser_feed as `feed`, with one function for each state of
--     its switch; BinaryFrame/Encoder has binary_frame_encode and binary_frame_finalize_in_place;
--     BinaryFrame/RoundTrip follows an encoded frame through the parser.
--   * Scheduler: src/kernel/scheduler.c for its two tasks. Scheduler/State has the static variables,
--     the task array, the words of memory that the code reads and writes, and the pending bit of
--     PendSV; Scheduler/Select the choice of the next task; Scheduler/Setup the functions that
--     prepare tasks; Scheduler/Events scheduler_event_signal and scheduler_tick; Scheduler/Dispatch
--     scheduler_svc_dispatch and scheduler_pendsv_dispatch.
--   * AppRuntime: src/kernel/application_runtime.c, the lifecycle of the applications that share the
--     display. AppRuntime/View has the rows of text; AppRuntime/Runtime the state, the descriptors
--     and the registry of the firmware; AppRuntime/Operations every operation that changes state,
--     for any registry; AppRuntime/SelfTest the accessors and the self test.
--   * FlashPersistence: src/drivers/flash_persistence.c, the two pages of flash that hold assets.
--     flash_execute, flash_persistence_erase_page and flash_persistence_program_halfword are
--     `execute`, `erase_page` and `program_halfword`. The flash controller is a parameter, a `Chip`:
--     what its registers and the memory show in each run. FlashPersistence/Frame has the one thing
--     that is asked of it, `IsChip`: an erasure changes its page only, and a program operation its
--     halfword only. It may fail, hang or store another value at any time.
--   * AssetPersistence: src/kernel/asset_persistence.c, which stores one asset in two slots, and
--     src/kernel/oled_ui_layout_config_v1.c, which the asset configures (AssetPersistence/Layout).
--     AssetPersistence/Record has the validation of a slot and the choice between the slots;
--     AssetPersistence/State the static variables and the actions; AssetPersistence/Candidate
--     asset_persistence_begin_candidate, _write_candidate, _commit_candidate and _abort_candidate.
--     An action returns, or is reset at one of the code's fault checkpoints. The proofs go from the
--     outcomes of an action (Ends) over the slots (Slots, Staged), the start of a candidate
--     (Prepare), its payload (Write, Copy, Underway) and its commit (Commit) to a whole delivery
--     (Delivery), from the state that a start-up leaves (Booted, Startup).
--   * AssetTransfer: src/kernel/asset_transfer.c, the session in which a host sends an asset in frames
--     of BinaryFrame to AssetPersistence. AssetTransfer/Session has the session, the status codes and
--     the responses; AssetTransfer/Handlers the begin, the writes and the commit, and the idle
--     timeout; AssetTransfer/Frames the other requests and asset_transfer_handle_frame.
--   * Checksums: the CRC-16 and CRC-32 routines that these parts each have.
--
-- How state is modelled: a struct is a record, and an operation takes the old state and returns the
-- new one with its result. A buffer with a length is the list of the bytes that count. A number is
-- a natural number with the remainder written out where the C type wraps. A null pointer is `none`
-- where the code gives it a meaning; an argument that only a null pointer check guards is taken to
-- be there. A critical section is one step. The time is an argument of the operations that read it.
-- Loops over arrays are recursions on lists or on a count, so that no fuel is needed; the loop of
-- `scheduler_select_next_ready` is a recursion on its two rounds.
--
-- What is not modelled: register access, the assembly of the exception handlers, the start loop and
-- the self tests of the scheduler, and the parts of the firmware that are not named above.
pub mod Common
pub mod NodeLink
pub mod BinaryFrame
pub mod Scheduler
pub mod AppRuntime
pub mod FlashPersistence
pub mod AssetPersistence
pub mod AssetTransfer
pub mod Checksums
