-- ===== src/Script.antt =====
-- exec/script: script.go, script_delay.go and script_exit.go.
pub mod Store
pub mod Recovery
use chaosblade_exec_os.Prelude.{
  ◌≡◌, String, List, [], ◌∷◌, Option, none, some, Bool, true, false, str_eq, if◌then◌else◌,
}
use chaosblade_exec_os.Go.Strings.{◌+s◌, split, trim_space, is_empty}
use chaosblade_exec_os.Go.Strconv.{ℤ, atoi}
use chaosblade_exec_os.Channel.{
  Env, Response, Context, Flags, flag, parameter_less, parameter_invalid, parameter_illegal,
  backfile_exists, file_not_exist, M, pure, ◌>>=◌, ◌>>◌, text_of, run_cmd,
  is_all_commands_available,
}
use chaosblade_exec_os.Exec.{check_filepath_exists}

abbrev pub get_back_file : String → String
get_back_file script_file = script_file +s "_chaosblade.bak"

-- The arguments of `cat` that copy a file.
abbrev pub copy_args : String → String → String
copy_args from to = from +s " > " +s to

module _ (env : Env) where
  unfoldable pub back_script : String → M Response
  back_script script_file = do
    exists ← check_filepath_exists env (get_back_file script_file)
    elim exists [
      | true ↦ pure (env.fail_with_flags backfile_exists (get_back_file script_file ∷ []))
      | false ↦ run_cmd env "cat" (copy_args script_file (get_back_file script_file))
    ]

  unfoldable pub recover_script : String → M Response
  recover_script script_file = do
    exists ← check_filepath_exists env (get_back_file script_file)
    elim exists [
      | false ↦ pure (env.fail_with_flags file_not_exist (get_back_file script_file ∷ []))
      | true ↦ do
        response ← run_cmd env "cat" (copy_args (get_back_file script_file) script_file)
        elim response.success [
          | false ↦ pure response
          | true ↦ run_cmd env "rm" ("-rf " +s get_back_file script_file)
        ]
    ]

  -- After the line numbers were found: exactly one, which is no blank text, gets the new content.
  unfoldable pub insert_at : String → String → String → List String → M Response
  unfolding trim_space is_empty
  insert_at function_name new_content script_file (line_num ∷ []) =
      elim (is_empty (trim_space line_num)) [
        | true ↦ pure (
            env.fail_with_flags parameter_illegal (
              "function-name" ∷ function_name ∷ "cannot find the function name in the script" ∷ []))
        | false ↦
            run_cmd env "sed" ("-i '" +s line_num +s " a " +s new_content +s "' " +s script_file)
      ]
  insert_at function_name new_content script_file [] = pure (
      env.fail_with_flags parameter_illegal
        ("function-name" ∷ function_name ∷ "cannot find the function name in the script" ∷ []))
  insert_at function_name new_content script_file (first ∷ second ∷ rest) = pure (
      env.fail_with_flags parameter_illegal
        ("function-name" ∷ function_name ∷ "the function name must be unique in the script" ∷ []))

  unfoldable pub insert_content_to_script_by : String → String → String → M Response
  unfolding insert_at split trim_space
  insert_content_to_script_by function_name new_content script_file = do
    response ←
        run_cmd env "awk" ("'/" +s function_name +s " *\\(\\) *\\{/{print NR}' " +s script_file)
    elim response.success [
      | false ↦ pure response
      | true ↦ do
        result ← text_of response
        insert_at function_name new_content script_file (split b'\n' (trim_space result))
    ]

  -- `start` of both executors, after the content is made: a failed insertion is undone.
  unfoldable pub start_with_content : String → String → String → M Response
  unfolding back_script insert_content_to_script_by recover_script
  start_with_content script_file function_name content = do
    backed_up ← back_script script_file
    elim backed_up.success [
      | false ↦ pure backed_up
      | true ↦ do
        response ← insert_content_to_script_by function_name content script_file
        elim response.success [
          | false ↦ do recover_script script_file; pure response
          | true ↦ pure response
        ]
    ]

  -- The content of `exit`.
  unfoldable pub exit_content : String → String → String
  exit_content message exit_code =
      (if str_eq message "" then "" else "echo \"" +s message +s "\";")
      +s "exit "
      +s (if str_eq exit_code "" then "1" else exit_code)

  -- The start of both `Exec` methods, with the code of a file that is not found; what follows gets
  -- the script file.
  unfoldable pub on_script : Response → Context → Flags → (String → M Response) → M Response
  unfolding recover_script flag
  on_script not_found ctx flags start = do
    missing ← is_all_commands_available env ("cat" ∷ "rm" ∷ "sed" ∷ "awk" ∷ "rm" ∷ [])
    elim missing [
      | some response ↦ pure response
      | none ↦ elim (str_eq (flag flags "file") "") [
        | true ↦ pure (env.fail_with_flags parameter_less ("file" ∷ []))
        | false ↦ do
          exists ← check_filepath_exists env (flag flags "file")
          elim exists [
            | false ↦ pure not_found
            | true ↦ elim ctx.destroy [
              | true ↦ recover_script (flag flags "file")
              | false ↦ elim (str_eq (flag flags "function-name") "") [
                | true ↦ pure (env.fail_with_flags parameter_less ("function-name" ∷ []))
                | false ↦ start (flag flags "file")
              ]
            ]
          ]
      ]
    ]

  unfoldable pub exit_exec : Context → Flags → M Response
  unfolding on_script start_with_content exit_content flag
  exit_exec ctx flags =
      on_script
        (env.fail_with_flags parameter_illegal
          ("file" ∷ flag flags "file" ∷ "the file is not found" ∷ []))
        ctx flags
        λ script_file.
          start_with_content script_file (flag flags "function-name")
            (exit_content (flag flags "exit-message") (flag flags "exit-code"))

  -- `seconds` is fmt.Sprintf("%f", float32(t) / 1000.0) for the milliseconds.
  unfoldable pub delay_exec : (ℤ → String) → Context → Flags → M Response
  unfolding on_script start_with_content flag
  delay_exec seconds ctx flags =
      on_script
        (env.fail_with_flags parameter_invalid
          ("file" ∷ flag flags "file" ∷ "it is not found" ∷ []))
        ctx flags
        λ script_file. elim (str_eq (flag flags "time") "") [
          | true ↦ pure (env.fail_with_flags parameter_less ("time" ∷ []))
          | false ↦ elim (atoi (flag flags "time")) [
            | none ↦ pure (
                env.fail_with_flags parameter_illegal
                  ("time" ∷ flag flags "time" ∷ "ti must be a positive integer" ∷ []))
            | some time ↦
                start_with_content script_file (flag flags "function-name")
                  ("sleep " +s seconds time)
          ]
        ]
