-- ===== src/Disk.antt =====
-- exec/disk: disk_fill.go and disk_burn.go.
pub mod Fill
pub mod Burn
use chaosblade_exec_os.Prelude.{ℕ, String, List, Option, Bool}
use chaosblade_exec_os.Channel.{Trace}

-- What the disk experiments read of the system.
pub record System : Type 0 where
  -- util.IsDir
  pub is_dir : Trace → String → Bool
  -- statfs: blocks, blocks that are available, and the size of a block
  pub blocks : Trace → String → ℕ
  pub available_blocks : Trace → String → ℕ
  pub block_size : Trace → String → ℕ
  -- the text of an error of os.Open
  pub open_error : Trace → String → Option String
  -- the processes that channel.GetPidsByProcessName returns, `none` for nil; its error is not read
  pub pids_or_nil : Trace → String → Option (List String)
  -- the texts of the errors of strconv.Atoi and strconv.ParseFloat
  pub atoi_error : String → String
  pub parse_float_error : String → String
