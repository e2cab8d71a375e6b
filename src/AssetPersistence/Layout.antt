-- ===== src/AssetPersistence/Layout.antt =====
-- src/kernel/oled_ui_layout_config_v1.c: the place of the console on the display.
use deus_os_stm.Common.{ℕ, ◌+◌, ◌%◌, Bool, ◌&&◌, ◌||◌, leb, ◌==◌, ◌!=◌, if◌then◌else◌, u32_mod}
use deus_os_stm.FlashPersistence.{Bytes}

abbrev pub object_type : ℕ
object_type = 1

abbrev pub schema : ℕ
schema = 1

abbrev pub config_bytes : ℕ
config_bytes = 8

-- `active_layout.console_rect` and `active_layout_revision`.
pub record Layout : Type 0 where
  pub x : ℕ
  pub y : ℕ
  pub width : ℕ
  pub height : ℕ
  pub revision : ℕ

abbrev pub default_layout : Layout
default_layout = record { x = 1; y = 10; width = 126; height = 22; revision = 0 }

-- `oled_ui_layout_set_console`
unfoldable pub set_console : Layout → ℕ → ℕ → ℕ → ℕ → Layout
set_console l x y width height =
    if l.x != x || l.y != y || l.width != width || l.height != height
    then record {
      x = x;
      y = y;
      width = width;
      height = height;
      revision = (l.revision + 1) % u32_mod;
    }
    else l

-- `oled_ui_layout_config_v1_validate` for the 8 bytes at an address. Three bytes are or-ed to 0
-- exactly when each is 0.
unfoldable pub config_validate : Bytes → ℕ → Bool
config_validate m at =
    m at == schema
    && (m (at + 5) == 0 && m (at + 6) == 0 && m (at + 7) == 0)
    && leb 5 (m (at + 3))
    && leb 6 (m (at + 4))
    && leb 10 (m (at + 2))
    && leb (m (at + 1) + m (at + 3)) 128
    && leb (m (at + 2) + m (at + 4)) 32

-- `oled_ui_layout_config_v1_activate_validated`
abbrev pub config_activate : Layout → Bytes → ℕ → Layout
config_activate l m at = set_console l (m (at + 1)) (m (at + 2)) (m (at + 3)) (m (at + 4))
