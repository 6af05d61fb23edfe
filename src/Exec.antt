-- ===== src/Exec.antt =====
-- exec/exec.go: what the experiments share.
use chaosblade_exec_os.Prelude.{
  String, List, [], ◌∷◌, ◌++◌, Option, none, some, Bool, true, false, str_eq, if◌then◌else◌,
}
use chaosblade_exec_os.Go.Strings.{◌+s◌, contains, join, is_empty}
use chaosblade_exec_os.Channel.{
  Env, Response, Context, M, pure, ◌>>=◌, text_of, run_cmd, local_get_pids, local_run_cmd,
}

module _ (env : Env) where
  -- The value of the context's process key.
  unfoldable pub process_key : Context → String → String
  process_key ctx action = elim ctx.uid [
    | none ↦ action
    | some suid ↦
        if str_eq suid env.unknown_uid then action else if is_empty suid then action else suid
  ]

  unfoldable pub original_pids : String → Option String → M (List String)
  original_pids key none = pure []
  original_pids key (some bin) = local_get_pids env key bin

  -- Destroy(ctx, c, action) with ctx.Value("bin") as `bin`. All its calls go to the local channel,
  -- none to `c`.
  unfoldable pub destroy : Context → Option String → String → M Response
  unfolding process_key original_pids
  destroy ctx bin action = do
    let key = process_key ctx action
    pids ← original_pids key bin
    ps ← local_get_pids env key env.chaos_os_bin
    elim (ps ++ pids) [
      | [] ↦ pure (env.return_success "no processes found to destroy")
      | p ∷ rest ↦ local_run_cmd env "kill" ("-9 " +s join (p ∷ rest) " ")
    ]

  unfoldable pub check_filepath_exists : String → M Bool
  check_filepath_exists filepath = do
    response ← run_cmd env ("[ -e " +s filepath +s " ] && echo true || echo false") ""
    elim response.success [
      | false ↦ pure false
      | true ↦ do result ← text_of response; pure (contains result "true")
    ]
