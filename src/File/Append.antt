-- ===== src/File/Append.antt =====
-- exec/file/file_append.go: `Exec`, `start`, `stop`, `handleOneTimeOperation` and `appendFile`.
pub mod Lines
pub mod Preserved
pub mod Restored
use chaosblade_exec_os.Prelude.{
  ℕ, zero, suc, String, List, [], ◌∷◌, Option, none, some, Bool, true, false, str_eq, ◌||◌,
  if◌then◌else◌,
}
use chaosblade_exec_os.Prelude.Result.{Result, ok, err}
use chaosblade_exec_os.Go.Strings.{◌+s◌, is_empty}
use chaosblade_exec_os.Go.Strconv.{ℤ, pos, negsuc, atoi, atoi_text}
use chaosblade_exec_os.Go.Path.{dir}
use chaosblade_exec_os.Channel.{
  Env, Response, Context, Flags, flag, flag_is_true, Trace, parameter_invalid, parameter_illegal,
  os_cmd_exec_failed, M, pure, returned, panicked, ◌>>=◌, ◌>>◌, run_cmd,
}
use chaosblade_exec_os.Exec.{check_filepath_exists, destroy}
use chaosblade_exec_os.File.{Codec, two_files, start_or_stop, make_dir}
use chaosblade_exec_os.File.Template.{parse_date, parse_random}

-- The clock, time.Now().Format, and rand.Intn, for the placeholders of a content that is appended
-- after some calls.
pub record Chance : Type 0 where
  pub now : Trace → String → String
  pub draw : Trace → ℕ → ℕ → ℕ

-- The arguments of `start`, without the count of lines and the interval.
pub record AppendArgs : Type 0 where
  pub filepath : String
  pub content : String
  pub escape : Bool
  pub enable_base64 : Bool
  pub enable_backup : Bool

-- The uid that names the backup; `none` is nil, unknown or empty.
unfoldable pub backup_uid : Env → Context → Option String
unfolding is_empty
backup_uid env ctx = elim ctx.uid [
  | none ↦ none
  | some uid ↦ if str_eq uid env.unknown_uid || is_empty uid then none else some uid
]

abbrev pub backup_file : String → String → String
backup_file filepath uid = filepath +s ".chaos-blade-backup-" +s uid

module _ (env : Env) (codec : Codec) (chance : Chance) where
  abbrev pub echo_args : AppendArgs → String → String
  echo_args a content = (if a.escape then "-e '" else "'") +s content +s "' >> " +s a.filepath

  -- The loop of `appendFile`, with the response so far; each round puts its numbers into what the
  -- round before made of the content.
  unfoldable pub append_lines : AppendArgs → ℕ → String → Option Response → M (Option Response)
  append_lines a zero content response t = returned response t
  append_lines a (suc count) content response t = elim (parse_random (chance.draw t) content) [
    | err e ↦ returned (some (env.return_fail parameter_illegal e)) t
    | ok line ↦
        (do
          written ← run_cmd env "echo" (echo_args a line)
          append_lines a count line (some written))
          t
  ]

  -- The content behind `enableBase64`.
  unfoldable pub decoded : AppendArgs → Option String
  decoded a = elim a.enable_base64 [ false ↦ some a.content | true ↦ codec.decode_string a.content ]

  -- From the decoding on.
  unfoldable pub append_content : AppendArgs → ℕ → M (Option Response)
  unfolding append_lines decoded
  append_content a count t = elim (decoded a) [
    | none ↦
        returned (some (env.return_fail os_cmd_exec_failed (a.content +s " base64 decode err"))) t
    | some content ↦ append_lines a count (parse_date (chance.now t) content) none t
  ]

  -- The failure if the directory is not there and cannot be made.
  unfoldable pub make_parent : String → M (Option Response)
  unfolding check_filepath_exists
  make_parent parent = do
    exists ← check_filepath_exists env parent
    elim exists [
      | true ↦ pure none
      | false ↦ do
        response ← run_cmd env "mkdir" ("-p \"" +s parent +s "\"")
        pure (elim response.success [
          | true ↦ none
          | false ↦ some (
              env.return_fail os_cmd_exec_failed
                ("failed to create directory " +s parent +s ": " +s response.err))
        ])
    ]

  unfoldable pub append_file : AppendArgs → ℕ → M (Option Response)
  unfolding make_parent append_content dir
  append_file a count = do
    failed ← make_parent (dir a.filepath)
    elim failed [ some response ↦ pure (some response) | none ↦ append_content a count ]

  -- The backup, where the file is there and has none yet; its response is not read.
  unfoldable pub back_up : String → String → M (Option Response)
  unfolding check_filepath_exists
  back_up filepath uid = do
    exists ← check_filepath_exists env filepath
    elim exists [
      | false ↦ pure none
      | true ↦ do
        kept ← check_filepath_exists env (backup_file filepath uid)
        elim kept [
          | true ↦ pure none
          | false ↦ do
            response ← run_cmd env "cp" (two_files filepath (backup_file filepath uid))
            pure (some response)
        ]
    ]

  unfoldable pub back_up_if : Context → AppendArgs → M (Option Response)
  unfolding back_up backup_uid
  back_up_if ctx a = elim a.enable_backup [
    | false ↦ pure none
    | true ↦ elim (backup_uid env ctx) [ none ↦ pure none | some uid ↦ back_up a.filepath uid ]
  ]

  -- The ticker: as many rounds as there are ticks before the context is done.
  unfoldable pub append_on_ticks : AppendArgs → ℕ → ℕ → M (Option Response)
  append_on_ticks a count zero = pure none
  append_on_ticks a count (suc ticks) = do append_file a count; append_on_ticks a count ticks

  -- `none` is nil, which `start` returns where nothing fails; `ticks` counts the ticks. The nil of an
  -- `appendFile` that appends no line is read.
  unfoldable pub append_start : Context → AppendArgs → ℕ → ℕ → ℕ → M (Option Response)
  unfolding back_up_if append_file append_on_ticks
  append_start ctx a count interval ticks = do
    back_up_if ctx a
    response ← append_file a count
    elim response [
      | none ↦ λ t. panicked t
      | some r ↦ elim r.success [
        | false ↦ pure (some r)
        | true ↦ elim interval [ zero ↦ pure none | suc n ↦ append_on_ticks a count ticks ]
      ]
    ]

  -- What is left of an appended file where it is to be deleted: no backup is wanted.
  unfoldable pub delete_appended : String → String → M Response
  unfolding check_filepath_exists
  delete_appended filepath message = do
    exists ← check_filepath_exists env filepath
    elim exists [
      | false ↦ pure (env.return_success message)
      | true ↦ do
        response ← run_cmd env "rm" ("\"" +s filepath +s "\"")
        elim response.success [ false ↦ pure response | true ↦ pure (env.return_success message) ]
    ]

  -- The file is deleted, and its backup restored if there is one.
  unfoldable pub restore_backup : String → String → M Response
  unfolding check_filepath_exists delete_appended
  restore_backup filepath uid = do
    kept ← check_filepath_exists env (backup_file filepath uid)
    elim kept [
      | false ↦
          delete_appended filepath "File append destroy operation completed (deleted created file)"
      | true ↦ do
        response ← run_cmd env "cp" (two_files (backup_file filepath uid) filepath)
        elim response.success [
          | false ↦ pure response
          | true ↦ do
            run_cmd env "rm" ("\"" +s backup_file filepath uid +s "\"")
            pure (
                env.return_success
                  "File append destroy operation completed successfully (original content restored)")
        ]
    ]

  -- The file stays, and so does its backup.
  unfoldable pub keep_backup : String → String → M Response
  unfolding check_filepath_exists
  keep_backup filepath uid = do
    kept ← check_filepath_exists env (backup_file filepath uid)
    pure (
        env.return_success (elim kept as (λ b. String) [
          | false ↦ "File append destroy operation completed (created file preserved)"
          | true ↦
              "File append destroy operation completed successfully (appended file and backup preserved)"
        ]))

  -- What needs the uid of the experiment.
  unfoldable pub with_backup_uid : Context → (String → M Response) → M Response
  unfolding backup_uid
  with_backup_uid ctx body = elim (backup_uid env ctx) [
    | none ↦
        pure (env.return_fail parameter_invalid "experiment UID is required for destroy operation")
    | some uid ↦ body uid
  ]

  unfoldable pub handle_one_time_operation : Context → String → Bool → Bool → M Response
  unfolding with_backup_uid restore_backup delete_appended keep_backup
  handle_one_time_operation ctx filepath true true = with_backup_uid ctx (restore_backup filepath)
  handle_one_time_operation ctx filepath false true =
      delete_appended filepath "File append destroy operation completed (file deleted)"
  handle_one_time_operation ctx filepath false false =
      pure (env.return_success "File append destroy operation completed (file preserved)")
  handle_one_time_operation ctx filepath true false = with_backup_uid ctx (keep_backup filepath)

  -- The response of `Destroy` is not read.
  unfoldable pub append_stop : Context → String → Bool → Bool → M Response
  unfolding handle_one_time_operation destroy
  append_stop ctx filepath enable_backup delete_file = do
    destroy env ctx (some "chaos_appendfile") "file append"
    handle_one_time_operation ctx filepath enable_backup delete_file

  -- A flag that has to be a positive integer, with its default.
  unfoldable pub positive_flag : Flags → String → ℕ → Result Response ℕ
  unfolding flag
  positive_flag flags name default =
      let illegal : Result Response ℕ = err (
        env.fail_with_flags parameter_illegal
          (name ∷ atoi_text (flag flags name) ∷ "it must be a positive integer" ∷ [])) in
      if str_eq (flag flags name) ""
      then ok default
      else (elim (atoi (flag flags name)) as (λ n. Result Response ℕ) [
        | some (pos (suc n)) ↦ ok (suc n)
        | some (pos zero) ↦ illegal
        | some (negsuc n) ↦ illegal
        | none ↦ illegal
      ])

  unfoldable pub append_args : Flags → AppendArgs
  unfolding flag flag_is_true
  append_args flags = record {
    filepath = flag flags "filepath";
    content = flag flags "content";
    escape = flag_is_true flags "escape";
    enable_base64 = flag_is_true flags "enable-base64";
    enable_backup = flag_is_true flags "enable-backup";
  }

  -- From the check of the file on.
  unfoldable pub append_create : Context → Flags → ℕ → M (Option Response)
  unfolding check_filepath_exists positive_flag append_args append_start flag
  append_create ctx flags ticks = do
    exists ← check_filepath_exists env (flag flags "filepath")
    elim exists [
      | false ↦ pure (
          some (
            env.fail_with_flags parameter_invalid
              ("filepath" ∷ flag flags "filepath" ∷ "the file does not exist" ∷ [])))
      | true ↦ elim (positive_flag flags "count" 1) [
        | err response ↦ pure (some response)
        | ok count ↦ elim (positive_flag flags "interval" 0) [
          | err response ↦ pure (some response)
          | ok interval ↦ append_start ctx (append_args flags) count interval ticks
        ]
      ]
    ]

  unfoldable pub append_exec : Context → Flags → ℕ → M (Option Response)
  unfolding start_or_stop append_stop append_create flag flag_is_true
  append_exec ctx flags ticks =
      start_or_stop env codec ("echo" ∷ "kill" ∷ "mkdir" ∷ []) ctx
        (do
          response ←
              append_stop ctx (flag flags "filepath") (flag_is_true flags "enable-backup")
                (flag_is_true flags "delete-file")
          pure (some response))
        (append_create ctx flags ticks)
