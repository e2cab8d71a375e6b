-- ===== src/NodeLink/MessageType.antt =====
-- The message types of deus_node_link.h: requests below 0x80, replies above.
use deus_os_stm.Common.{ℕ, Bool, ◌&&◌, ◌||◌, leb, ◌==◌}

abbrev pub hello : ℕ
hello = 0x01

abbrev pub ping : ℕ
ping = 0x02

abbrev pub job_crc32 : ℕ
job_crc32 = 0x03

abbrev pub get_status : ℕ
get_status = 0x04

abbrev pub hello_ack : ℕ
hello_ack = 0x81

abbrev pub pong : ℕ
pong = 0x82

abbrev pub job_result : ℕ
job_result = 0x83

abbrev pub status : ℕ
status = 0x84

abbrev pub error : ℕ
error = 0xff

unfoldable pub is_request : ℕ → Bool
is_request type = leb 1 type && leb type 4

unfoldable pub is_reply : ℕ → Bool
is_reply type =
    type == hello_ack || type == pong || type == job_result || type == status || type == error
