-- ===== src/NodeLink/ErrorCode.antt =====
-- The codes that an error reply carries (deus_node_link.h).
use deus_os_stm.Common.{ℕ}

abbrev pub unsupported : ℕ
unsupported = 1

abbrev pub bad_payload : ℕ
bad_payload = 2

abbrev pub busy : ℕ
busy = 3

abbrev pub bad_sequence : ℕ
bad_sequence = 4

abbrev pub not_ready : ℕ
not_ready = 5
