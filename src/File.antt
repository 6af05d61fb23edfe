-- ===== src/File.antt =====
-- exec/file: file_add.go, file_delete.go, file_move.go and file_chmod.go.
pub mod Chmod
pub mod Template
pub mod Append
use chaosblade_exec_os.Prelude.{
  String, List, [], ◌∷◌, Option, none, some, Bool, true, false, str_eq, ◌&&◌,
}
use chaosblade_exec_os.Go.Strings.{◌+s◌}
use chaosblade_exec_os.Go.Path.{base, dir, join_path}
use chaosblade_exec_os.Channel.{
  Env, Response, Context, Flags, flag, flag_is_true, parameter_invalid, M, pure, ◌>>=◌, ◌>>◌,
  run_cmd, is_all_commands_available,
}
use chaosblade_exec_os.Exec.{check_filepath_exists}

-- Decoding and hashing, which are not read: base64.StdEncoding.DecodeString, `none` on an error,
-- and the digits of the md5 sum of a text.
pub record Codec : Type 0 where
  pub decode_string : String → Option String
  pub md5_hex : String → String

-- Two file names in quotes.
abbrev pub two_files : String → String → String
two_files a b = "\"" +s a +s "\" \"" +s b +s "\""

module _ (env : Env) (codec : Codec) where
  -- Exec methods: the commands must be there, and a destroyed experiment is stopped.
  unfoldable pub start_or_stop :
      List String → Context → M (Option Response) → M (Option Response) → M (Option Response)
  start_or_stop commands ctx stop start = do
    missing ← is_all_commands_available env commands
    elim missing [
      | some response ↦ pure (some response)
      | none ↦ elim ctx.destroy [ true ↦ stop | false ↦ start ]
    ]

  abbrev pub some_run : String → String → M (Option Response)
  some_run script args = do response ← run_cmd env script args; pure (some response)

  -- The file is added where its directory is there.
  unfoldable pub add_content : String → String → Bool → Bool → M (Option Response)
  add_content filepath content directory enable_base64 = elim directory [
    | true ↦ some_run "mkdir" filepath
    | false ↦ elim (str_eq content "") [
      | true ↦ some_run "touch" filepath
      | false ↦
          elim (elim enable_base64 as (λ x. Option String) [
            | true ↦ codec.decode_string content
            | false ↦ some content
          ]) [
            | none ↦ pure (
                some (
                  env.fail_with_flags parameter_invalid
                    ("filepath" ∷ filepath ∷ "the path is exist" ∷ [])))
            | some text ↦ some_run "echo" ("-e \"" +s text +s "\" >> \"" +s filepath +s "\"")
          ]
    ]
  ]

  -- The response if the directory is to be made and cannot be.
  unfoldable pub make_dir : Bool → String → String → M (Option Response)
  unfolding check_filepath_exists
  make_dir false target new_dir = pure none
  make_dir true target new_dir = do
    exists ← check_filepath_exists env target
    elim exists [
      | true ↦ pure none
      | false ↦ do
        response ← run_cmd env "mkdir" ("-p " +s new_dir)
        pure (elim response.success [ false ↦ some response | true ↦ none ])
    ]

  unfoldable pub add_start : String → String → Bool → Bool → Bool → M (Option Response)
  unfolding make_dir add_content dir
  add_start filepath content directory enable_base64 auto_create_dir = do
    failed ← make_dir auto_create_dir filepath (dir filepath)
    elim failed [
      | some response ↦ pure (some response)
      | none ↦ add_content filepath content directory enable_base64
    ]

  unfoldable pub add_exec : Context → Flags → M (Option Response)
  unfolding start_or_stop add_start flag flag_is_true check_filepath_exists
  add_exec ctx flags =
      start_or_stop ("touch" ∷ "mkdir" ∷ "echo" ∷ "rm" ∷ []) ctx
        (some_run "rm" ("-rf " +s flag flags "filepath"))
        do
          exists ← check_filepath_exists env (flag flags "filepath")
          elim exists [
            | true ↦ pure (
                some (
                  env.fail_with_flags parameter_invalid
                    ("filepath" ∷ flag flags "filepath" ∷ "the filepath is exist" ∷ [])))
            | false ↦
                add_start (flag flags "filepath") (flag flags "content")
                  (flag_is_true flags "directory") (flag_is_true flags "enable-base64")
                  (flag_is_true flags "auto-create-dir")
          ]

  -- Where a deleted file is kept: a hidden file of the same directory.
  unfoldable pub kept_file : String → String
  unfolding dir base join_path
  kept_file filepath = join_path (dir filepath) ("." +s codec.md5_hex (base filepath))

  unfoldable pub delete_start : String → Bool → M (Option Response)
  unfolding kept_file
  delete_start filepath true = some_run "rm" ("-rf \"" +s filepath +s "\"")
  delete_start filepath false = some_run "mv" (two_files filepath (kept_file filepath))

  -- A forced deletion cannot be undone: nil is returned.
  unfoldable pub delete_stop : String → Bool → M (Option Response)
  unfolding kept_file
  delete_stop filepath true = pure none
  delete_stop filepath false = some_run "mv" (two_files (kept_file filepath) filepath)

  unfoldable pub delete_exec : Context → Flags → M (Option Response)
  unfolding start_or_stop delete_start delete_stop flag flag_is_true check_filepath_exists
  delete_exec ctx flags =
      start_or_stop ("rm" ∷ "mv" ∷ []) ctx
        (delete_stop (flag flags "filepath") (flag_is_true flags "force"))
        do
          exists ← check_filepath_exists env (flag flags "filepath")
          elim exists [
            | false ↦ pure (
                some (
                  env.fail_with_flags parameter_invalid
                    ("filepath" ∷ flag flags "filepath" ∷ "the file does not exist" ∷ [])))
            | true ↦ delete_start (flag flags "filepath") (flag_is_true flags "force")
          ]

  -- The file at the target, and its backup.
  abbrev pub target_file : String → String → String
  target_file filepath target = join_path target (base filepath)

  abbrev pub target_backup : String → String → String
  target_backup filepath target = join_path target (base filepath +s ".chaos-blade-backup")

  unfoldable pub move_start : String → String → Bool → Bool → M (Option Response)
  unfolding make_dir base join_path
  move_start filepath target force auto_create_dir = do
    failed ← make_dir auto_create_dir target target
    elim failed [
      | some response ↦ pure (some response)
      | none ↦ elim force [
        | true ↦ do
          run_cmd env "cp" (two_files (target_file filepath target) (target_backup filepath target))
          some_run "mv" ("-f " +s two_files filepath target)
        | false ↦ some_run "mv" (two_files filepath target)
      ]
    ]

  unfoldable pub move_stop : String → String → M (Option Response)
  unfolding base dir join_path
  move_stop filepath target = do
    response ← run_cmd env "mv" ("-f " +s two_files (target_file filepath target) (dir filepath))
    elim response.success [
      | false ↦ pure (some response)
      | true ↦ do
        run_cmd env "mv" (two_files (target_backup filepath target) (target_file filepath target))
        pure (some response)
    ]

  -- Unless forced, a file at the target is kept.
  unfoldable pub target_taken : String → Bool → M Bool
  unfolding check_filepath_exists
  target_taken file true = pure false
  target_taken file false = check_filepath_exists env file

  unfoldable pub move_exec : Context → Flags → M (Option Response)
  unfolding start_or_stop move_start move_stop target_taken flag flag_is_true
  move_exec ctx flags =
      start_or_stop ("mv" ∷ "mkdir" ∷ []) ctx
        (move_stop (flag flags "filepath") (flag flags "target"))
        do
          taken ←
              target_taken (target_file (flag flags "filepath") (flag flags "target"))
                (flag_is_true flags "force")
          elim taken [
            | true ↦ pure (
                some (
                  env.fail_with_flags parameter_invalid (
                    "target"
                    ∷ target_file (flag flags "filepath") (flag flags "target")
                    ∷ "the target file already exists"
                    ∷ [])))
            | false ↦
                move_start (flag flags "filepath") (flag flags "target")
                  (flag_is_true flags "force") (flag_is_true flags "auto-create-dir")
          ]
