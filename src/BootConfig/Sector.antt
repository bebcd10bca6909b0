-- ===== src/BootConfig/Sector.antt =====
-- kernel/bootcfg.c: the store of the kernel, read from a sector of the disk and written to it.
use null_os.Prelude.{
  ℕ, ◌-◌, Bool, true, false, not, ◌&&◌, Option, none, some, List, ltb, ◌==◌, if◌then◌else◌, set,
}
use null_os.Prelude.Bytes.{get_u16}
use null_os.Fat16.{Disk, Volume, read_sector, write_sector}
use null_os.BootConfig.{config_size, cfg_reset, has_magic}

abbrev pub bootcfg_lba : ℕ
bootcfg_lba = 1

-- `g_cfg` and `g_available`.
pub record Config : Type 0 where
  pub cfg : List ℕ
  pub available : Bool

pub guard_ok : Disk → Bool
guard_ok d = elim (read_sector 0 d) [
  | none ↦ false
  | some boot ↦ (get_u16 boot 11 == config_size) && ltb bootcfg_lba (get_u16 boot 14)
]

-- `bootcfg_read`: no value is -1.
pub bootcfg_read : Disk → Option Bool × Config
bootcfg_read d =
    let empty : Config = record { cfg = cfg_reset; available = true } in
    if not (guard_ok d)
    then (none, record empty { available = false })
    else elim (read_sector bootcfg_lba d) [
      | none ↦ (none, record empty { available = false })
      | some raw ↦
          if not (has_magic raw)
          then (some false, empty)
          else (some true, record empty { cfg = set raw (config_size - 1) 0 })
    ]

-- `bootcfg_write`: `false` is -1.
pub bootcfg_write : Config → Volume → Bool × (Config × Volume)
bootcfg_write c v =
    let ended = record c { cfg = set c.cfg (config_size - 1) 0 } in
    let (ok, u) = write_sector bootcfg_lba ended.cfg v in
    if c.available then (ok, (ended, u)) else (false, (c, v))
