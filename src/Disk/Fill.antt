-- ===== src/Disk/Fill.antt =====
-- exec/disk/disk_fill.go: `Exec`, `startFill`, `stopFill` and what they call.
pub mod CleanedUp
use chaosblade_exec_os.Prelude.{
  ℕ, ◌-◌, ◌+◌, ◌*◌, ◌%◌, ◌^◌, String, List, [], ◌∷◌, Option, none, some, Bool, true, false, not,
  ◌&&◌, str_eq, if◌then◌else◌,
}
use chaosblade_exec_os.Prelude.Result.{Result, ok, err}
use chaosblade_exec_os.Go.Strings.{◌+s◌, contains, join}
use chaosblade_exec_os.Go.Strconv.{ℤ, pos, negsuc, atoi}
use chaosblade_exec_os.Go.Path.{join_path}
use chaosblade_exec_os.Go.Floats.{Floats}
use chaosblade_exec_os.Channel.{
  Env, Response, Context, Flags, flag, flag_is_true, Trace, pids_by_process_name, parameter_illegal,
  parameter_invalid, parameter_less, os_cmd_exec_failed, command_dd_not_found, M, pure, returned,
  hung, ◌>>=◌, ◌>>◌, run_cmd, is_command_available,
}
use chaosblade_exec_os.Exec.{check_filepath_exists}
use chaosblade_exec_os.Disk.{System}

abbrev pub data_file : String → String
data_file directory = join_path directory "chaos_filldisk.log.dat"

abbrev pub full_message : String
full_message = "No space left on device"

-- allBytes, availableBytes and usedBytes, 64-bit numbers without sign
pub record Bytes : Type 0 where
  pub all : ℕ
  pub available : ℕ
  pub used : ℕ

unfoldable pub bytes_of : System → Trace → String → Bytes
bytes_of system t directory =
    let all = system.blocks t directory * system.block_size t directory % 2 ^ 64 in
    let available = system.available_blocks t directory * system.block_size t directory % 2 ^ 64 in
    record { all = all; available = available; used = (all + 2 ^ 64 - available) % 2 ^ 64 }

module _ (floats : Floats) where
  abbrev number : ℕ → floats.Float
  number n = floats.of_int (pos n)

  -- What a text of two decimals reads as; the error is not read.
  abbrev rounded : floats.Float → floats.Float
  rounded x = (floats.parse_float (floats.two_decimals x)).0

  abbrev in_mb : floats.Float → floats.Float
  in_mb x = floats.divided_by x (number 1048576)

  unfoldable pub size_by_percent : Bytes → ℤ → Result String String
  size_by_percent bytes percent =
      let used = rounded (floats.divided_by (number bytes.used) (number bytes.all)) in
      let expected = rounded (floats.divided_by (floats.of_int percent) (number 100)) in
      let wanted = floats.times (floats.minus expected used) (number bytes.all) in
      if floats.at_most expected used
      then err ("the disk has been used " +s floats.two_decimals used +s ", large than expected")
      else if floats.less (number bytes.available) wanted
      then ok (floats.no_decimals (floats.floor (in_mb (number bytes.available))))
      else ok (floats.no_decimals (floats.floor (in_mb wanted)))

  unfoldable pub size_by_reserve : Bytes → floats.Float → Result String String
  size_by_reserve bytes reserve =
      let available = in_mb (number bytes.available) in
      if floats.at_most available reserve
      then err (
          "the disk has available size " +s floats.two_decimals available +s ", less than expected")
      else ok (floats.no_decimals (floats.floor (floats.minus available reserve)))

  unfoldable pub calculate_file_size :
      System → Trace → String → String → String → String → Result String String
  unfolding size_by_percent size_by_reserve bytes_of atoi
  calculate_file_size system t directory size percent reserve =
      if str_eq percent "" && str_eq reserve ""
      then ok size
      else if str_eq percent ""
      then (let (r, good) = floats.parse_float reserve in
          if good
          then size_by_reserve (bytes_of system t directory) r
          else err (system.parse_float_error reserve))
      else (elim (atoi percent) as (λ x. Result String String) [
        | none ↦ err (system.atoi_error percent)
        | some p ↦ size_by_percent (bytes_of system t directory) p
      ])

module _ (env : Env) (system : System) where
  -- A full disk counts as a success.
  unfoldable pub fill_disk_by_fallocate : String → String → M Response
  unfolding contains
  fill_disk_by_fallocate size file = do
    response ← run_cmd env "fallocate" ("-l " +s size +s "M " +s file)
    pure (elim response.success as (λ x. Response) [
      | true ↦ response
      | false ↦
          if contains response.err full_message
          then env.return_success ("success because of " +s full_message)
          else env.fail_with_flags os_cmd_exec_failed ("fallocate" ∷ response.err ∷ [])
    ])

  -- One block is written first, to test the command.
  unfoldable pub fill_disk_by_dd : String → String → M Response
  fill_disk_by_dd size file = do
    found ← is_command_available env "dd"
    elim found as (λ x. M Response) [
      | false ↦ pure (env.fail_with_flags command_dd_not_found [])
      | true ↦ do
        response ← run_cmd env "dd" ("if=/dev/zero of=" +s file +s " bs=1b count=1 iflag=fullblock")
        elim response.success as (λ x. M Response) [
          | false ↦ pure response
          | true ↦ run_cmd env "nohup" (
              "dd if=/dev/zero of=" +s file +s " bs=1M count=" +s size
              +s " iflag=fullblock >/dev/null 2>&1 &")
        ]
    ]

  -- The processes of a name are killed; a list that is not nil may be empty.
  unfoldable pub kill_named : String → M Bool
  unfolding join
  kill_named name t = elim (system.pids_or_nil t name) [
    | none ↦ returned false (pids_by_process_name name ∷ t)
    | some pids ↦
        (do run_cmd env "kill" ("-9 " +s join pids " "); pure true) (pids_by_process_name name ∷ t)
  ]

  unfoldable pub stop_fill : String → M Response
  unfolding kill_named check_filepath_exists join_path
  stop_fill directory = elim (str_eq directory "") as (λ x. M Response) [
    | true ↦
        pure (
          env.fail_with_flags parameter_invalid ("directory" ∷ directory ∷ "directory is nil" ∷ []))
    | false ↦ do
      kill_named "chaos_filldisk.log.dat"
      kill_named "disk fill"
      exists ← check_filepath_exists env (data_file directory)
      elim exists as (λ x. M Response) [
        | true ↦ run_cmd env "rm" ("-rf " +s data_file directory)
        | false ↦ pure env.plain_success
      ]
  ]

  -- The file is held open for ever.
  unfoldable pub retain_file_handle : String → M Response
  unfolding join_path
  retain_file_handle directory t = elim (system.open_error t (data_file directory)) [
    | none ↦ hung t
    | some e ↦
        pure
          (env.return_fail os_cmd_exec_failed
            ("failed to read " +s data_file directory +s " file, " +s e))
          t
  ]

  -- fallocate, and dd where that fails or is missing.
  unfoldable pub fill_file : String → String → M Response
  unfolding fill_disk_by_fallocate fill_disk_by_dd
  fill_file size file = do
    found ← is_command_available env "fallocate"
    elim found as (λ x. M Response) [
      | false ↦ fill_disk_by_dd size file
      | true ↦ do
        response ← fill_disk_by_fallocate size file
        elim response.success as (λ x. M Response) [
          | true ↦ pure response
          | false ↦ fill_disk_by_dd size file
        ]
    ]

  -- From the calculated size on.
  unfoldable pub fill_sized : String → Bool → String → M Response
  unfolding fill_file stop_fill retain_file_handle join_path
  fill_sized directory retain_handle size = do
    response ← fill_file size (data_file directory)
    elim response.success as (λ x. M Response) [
      | false ↦ stop_fill directory >> pure response
      | true ↦ elim retain_handle as (λ x. M Response) [
        | false ↦ pure response
        | true ↦ retain_file_handle directory
      ]
    ]

module _ (env : Env) (system : System) (floats : Floats) where
  unfoldable pub start_fill : String → String → String → String → Bool → M Response
  unfolding calculate_file_size fill_sized
  start_fill directory size percent reserve retain_handle t =
      if str_eq directory ""
      then pure
          (env.fail_with_flags parameter_invalid
            ("directory" ∷ directory ∷ "directory is nil" ∷ []))
          t
      else if str_eq size "" && str_eq percent "" && str_eq reserve ""
      then pure
          (env.fail_with_flags parameter_invalid
            ("directory" ∷ directory ∷ "less --size or --percent or --reserve flag" ∷ []))
          t
      else (elim (calculate_file_size floats system t directory size percent reserve) [
        | err e ↦ pure (env.return_fail os_cmd_exec_failed ("calculate size err, " +s e)) t
        | ok file_size ↦ fill_sized env system directory retain_handle file_size t
      ])

  -- A text that is to be a number.
  abbrev if_number : String → String → M Response → M Response
  if_number name value rest = elim (atoi value) as (λ x. M Response) [
    | none ↦
        pure (
          env.fail_with_flags parameter_illegal (name ∷ value ∷ "it must be positive integer" ∷ []))
    | some n ↦ rest
  ]

  unfoldable pub fill_create : String → Flags → M Response
  unfolding start_fill flag flag_is_true atoi
  fill_create directory flags =
      let retain_handle = flag_is_true flags "retain-handle" in
      let percent = flag flags "percent" in
      let reserve = flag flags "reserve" in
      let size = flag flags "size" in
      if not (str_eq percent "")
      then if_number "percent" percent (start_fill directory "" percent "" retain_handle)
      else if not (str_eq reserve "")
      then if_number "reserve" reserve (start_fill directory "" percent reserve retain_handle)
      else if str_eq size ""
      then pure (env.fail_with_flags parameter_less ("size|percent" ∷ []))
      else if_number "size" size (start_fill directory size percent reserve retain_handle)

  unfoldable pub fill_exec : Context → Flags → M Response
  unfolding fill_create stop_fill flag
  fill_exec ctx flags t =
      let directory = if str_eq (flag flags "path") "" then "/" else flag flags "path" in
      if not (system.is_dir t directory)
      then pure
          (env.fail_with_flags parameter_illegal
            ("path" ∷ directory ∷ "it must be a directory" ∷ []))
          t
      else (elim ctx.destroy [
        | true ↦ stop_fill env system directory t
        | false ↦ fill_create directory flags t
      ])
