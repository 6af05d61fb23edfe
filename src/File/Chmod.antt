-- ===== src/File/Chmod.antt =====
-- exec/file/file_chmod.go.
pub mod Noted
use Prim.Native.String.{[], ◌∷◌}
use mathlib.Core.List.{[], ◌∷◌}
use chaosblade_exec_os.Prelude.{code, leb, String, none, some, Bool, true, false, ◌&&◌}
use chaosblade_exec_os.Go.Strings.{◌+s◌}
use chaosblade_exec_os.Channel.{
  Env, Response, Context, Flags, flag, parameter_illegal, parameter_invalid, M, pure, ◌>>=◌, ◌>>◌,
  text_of, run_cmd, is_all_commands_available,
}
use chaosblade_exec_os.Exec.{check_filepath_exists}

abbrev pub tmp_file_chmod : String
tmp_file_chmod = "/tmp/chaos-file-chmod.tmp"

-- The expression ^([0-7]{3})$
unfoldable pub is_mark : String → Bool
is_mark (a ∷ b ∷ c ∷ []) =
    leb 48 (code a)
    && leb (code a) 55
    && leb 48 (code b)
    && leb (code b) 55
    && leb 48 (code c)
    && leb (code c) 55
is_mark _ = false

-- strings.TrimRight(text, "\n")
unfoldable pub trim_newlines : String → String
trim_newlines [] = []
trim_newlines (c ∷ s) =
    let rest = trim_newlines s in
    elim rest [
      | [] ↦ elim (leb 10 (code c) && leb (code c) 10) [ true ↦ [] | false ↦ c ∷ [] ]
      | d ∷ t ↦ c ∷ d ∷ t
    ]

module _ (env : Env) where
  unfoldable pub clear_temp_file : String → M Response
  unfolding trim_newlines
  clear_temp_file filepath = do
    response ← run_cmd env "cat" ("\"" +s tmp_file_chmod +s "\"| grep -v " +s filepath +s ":")
    elim response.success [
      | false ↦ run_cmd env "rm" ("-rf \"" +s tmp_file_chmod +s "\"")
      | true ↦ do
        result ← text_of response
        run_cmd env "echo" ("\"" +s trim_newlines result +s "\" > " +s tmp_file_chmod)
    ]

  unfoldable pub stop_chmod_file : String → M Response
  unfolding clear_temp_file
  stop_chmod_file filepath = do
    marked ←
        run_cmd env "grep" (filepath +s ": " +s tmp_file_chmod +s " | awk -F ':' '{printf $2}'")
    elim marked.success [
      | false ↦ do clear_temp_file filepath; pure marked
      | true ↦ do
        origin_mark ← text_of marked
        response ← run_cmd env "chmod" (origin_mark +s " " +s filepath)
        clear_temp_file filepath
        pure response
    ]

  -- From the search in the file of modes on.
  unfoldable pub note_and_change : String → String → M Response
  note_and_change filepath mark = do
    marked ← run_cmd env "grep" ("-q \"" +s filepath +s ":\" \"" +s tmp_file_chmod +s "\"")
    elim marked.success [
      | true ↦ pure (
          env.fail_with_flags parameter_illegal
            ("filepath" ∷ filepath ∷ "already being experimented" ∷ []))
      | false ↦ do
        stat ← run_cmd env "stat" ("-c \"%a\" " +s filepath)
        elim stat.success [
          | false ↦ pure (
              env.fail_with_flags parameter_illegal
                ("filepath" ∷ filepath ∷ "can't get file's mark" ∷ []))
          | true ↦ do
            origin_mark ← text_of stat
            noted ←
                run_cmd env "echo"
                  ("'" +s filepath +s ":" +s origin_mark +s "' >> " +s tmp_file_chmod)
            elim noted.success [
              | false ↦ pure noted
              | true ↦ run_cmd env "chmod" (mark +s " \"" +s filepath +s "\"")
            ]
        ]
    ]

  -- From the check of the file on.
  unfoldable pub start_chmod_file : String → String → M Response
  unfolding check_filepath_exists note_and_change
  start_chmod_file filepath mark = do
    exists ← check_filepath_exists env filepath
    elim exists [
      | false ↦ pure (
          env.fail_with_flags parameter_invalid
            ("filepath" ∷ filepath ∷ "the file does not exist" ∷ []))
      | true ↦ note_and_change filepath mark
    ]

  unfoldable pub chmod_exec : Context → Flags → M Response
  unfolding is_mark stop_chmod_file start_chmod_file flag
  chmod_exec ctx flags = do
    missing ←
        is_all_commands_available env
          ("chmod" ∷ "grep" ∷ "echo" ∷ "rm" ∷ "awk" ∷ "cat" ∷ "stat" ∷ [])
    elim missing [
      | some response ↦ pure response
      | none ↦ elim (is_mark (flag flags "mark")) [
        | false ↦ pure (
            env.fail_with_flags parameter_illegal
              ("mark" ∷ flag flags "mark" ∷ "the mark is not matched" ∷ []))
        | true ↦ elim ctx.destroy [
          | true ↦ stop_chmod_file (flag flags "filepath")
          | false ↦ start_chmod_file (flag flags "filepath") (flag flags "mark")
        ]
      ]
    ]
