-- ===== src/Checksums/Examples.antt =====
-- The checksums of a few bytes.
use deus_os_stm.Common.{◌≡◌, [], ◌∷◌}
use deus_os_stm.NodeLink.Crc as Link
use deus_os_stm.BinaryFrame.Crc as Binary
use deus_os_stm.AssetPersistence.Record as Asset
use deus_os_stm.AssetPersistence.Candidate.{bytes_from}
use deus_os_stm.Checksums.{crc16_agrees, crc32_agrees}

crc16_agrees_example :
    Link.crc16_ccitt_false (1 ∷ 2 ∷ 3 ∷ []) ≡ Binary.crc16_ccitt_false (1 ∷ 2 ∷ 3 ∷ [])
crc16_agrees_example = crc16_agrees (1 ∷ 2 ∷ 3 ∷ [])

crc32_agrees_example :
    Asset.crc32_flash (λ a. 255) 0x0800F800 8 ≡ Link.crc32_ieee (bytes_from (λ a. 255) 0x0800F800 8)
crc32_agrees_example = crc32_agrees (λ a. 255) 0x0800F800 8
