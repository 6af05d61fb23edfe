-- ===== src/Process.antt =====
-- exec/process: process.go, process_kill.go and process_stop.go.
pub mod Lookup
pub mod Signals
pub mod Load
use chaosblade_exec_os.Prelude.{
  ℕ, suc, ◌≡◌, ◌&&◌, String, List, [], ◌∷◌, Option, none, some, Bool, true, false, str_eq,
  if◌then◌else◌, length, take, ltb,
}
use chaosblade_exec_os.Prelude.Result.{Result, ok, err}
use chaosblade_exec_os.Go.Strings.{◌+s◌, split, join}
use chaosblade_exec_os.Go.Strconv.{ℤ, pos, negsuc, atoi}
use chaosblade_exec_os.Channel.{
  Env, Response, Context, Flags, flag, flag_is_true, parameter_less, parameter_illegal,
  parameter_invalid_pro_name, process_id_by_name_failed, os_cmd_exec_failed, M, pure, ◌>>=◌, ◌>>◌,
  text_of, run_cmd, get_pids_by_process_name, get_pids_by_process_cmd_name, get_pids_by_local_ports,
}

-- util.ParseIntegerListToStringSlice("local-port", …) and util.RemoveDuplicates of
-- chaosblade-spec-go, which keeps at least one pid of some.
pub record Util : Type 0 where
  pub parse_integer_list : String → Result String (List String)
  pub remove_duplicates : List String → List String

-- The flags that `getPids` reads.
pub record PidFlags : Type 0 where
  pub count_value : String
  pub process : String
  pub process_cmd : String
  pub local_ports : String
  pub pid : String
  pub exclude_process : String
  pub ignore_process_not_found : Bool

unfoldable pub pid_flags : Flags → PidFlags
unfolding flag flag_is_true
pid_flags flags = record {
  count_value = flag flags "count";
  process = flag flags "process";
  process_cmd = flag flags "process-cmd";
  local_ports = flag flags "local-port";
  pid = flag flags "pid";
  exclude_process = flag flags "exclude-process";
  ignore_process_not_found = flag_is_true flags "ignore-not-found";
}

-- excludeProcessValue, which the channel finds in its context
unfoldable pub exclude_process_value : PidFlags → String
exclude_process_value f = "blade," +s f.exclude_process

-- The matcher that decides: the first of the four flags that is given.
pub data Matcher : Type 0 where
  by_process by_process_cmd by_local_ports by_pid : String → Matcher
  by_nothing : Matcher

unfoldable pub matcher : PidFlags → Matcher
matcher f =
    if str_eq f.process ""
    then (if str_eq f.process_cmd ""
        then (if str_eq f.local_ports ""
            then (if str_eq f.pid "" then by_nothing else by_pid f.pid)
            else by_local_ports f.local_ports)
        else by_process_cmd f.process_cmd)
    else by_process f.process

-- count > 0 && len(pids) > count
unfoldable pub limit_pids : Option ℤ → List String → List String
limit_pids (some (pos (suc n))) pids = if ltb (suc n) (length pids) then take (suc n) pids else pids
limit_pids _ pids = pids

module _ (env : Env) (util : Util) where
  -- The end of `checkProcessInvalid`, with the name of the matcher's flag.
  unfoldable pub invalid_if_none : String → String → List String → Option Response
  invalid_if_none parameter name [] =
      some (env.fail_with_flags parameter_invalid_pro_name (parameter ∷ name ∷ []))
  invalid_if_none parameter name (p ∷ pids) = none

  -- `none` is nil: the process is valid. An error of GetPidsByLocalPorts is not read.
  unfoldable pub check_process_invalid : String → Matcher → M (Option Response)
  unfolding invalid_if_none
  check_process_invalid excluded (by_process process) = do
    result ← get_pids_by_process_name env excluded process
    pure (elim result [
      | err e ↦ some (env.fail_with_flags process_id_by_name_failed (process ∷ e ∷ []))
      | ok pids ↦ invalid_if_none "process" process pids
    ])
  check_process_invalid excluded (by_process_cmd cmd) = do
    result ← get_pids_by_process_cmd_name env excluded cmd
    pure (elim result [
      | err e ↦ some (env.fail_with_flags process_id_by_name_failed (cmd ∷ e ∷ []))
      | ok pids ↦ invalid_if_none "process-cmd" cmd pids
    ])
  check_process_invalid excluded (by_local_ports ports) = elim (util.parse_integer_list ports) [
    | err e ↦ pure (some (env.fail_with_flags parameter_illegal ("local-port" ∷ ports ∷ e ∷ [])))
    | ok list ↦ do
      result ← get_pids_by_local_ports env excluded list
      pure (elim result [
        | err e ↦ invalid_if_none "local-port" ports []
        | ok pids ↦ invalid_if_none "local-port" ports pids
      ])
  ]
  check_process_invalid excluded (by_pid pid) = pure none
  check_process_invalid excluded by_nothing = pure (invalid_if_none "" "" [])

  -- The pids that the matcher selects.
  unfoldable pub matched_pids : String → Matcher → M (Result Response (List String))
  unfolding split
  matched_pids excluded (by_process process) = do
    result ← get_pids_by_process_name env excluded process
    pure (elim result [
      | err e ↦ err (env.return_fail os_cmd_exec_failed ("get pids by processname err, " +s e))
      | ok pids ↦ ok pids
    ])
  matched_pids excluded (by_process_cmd cmd) = do
    result ← get_pids_by_process_cmd_name env excluded cmd
    pure (elim result [
      | err e ↦ err (env.return_fail os_cmd_exec_failed ("get pids by processcmdname err, " +s e))
      | ok pids ↦ ok pids
    ])
  matched_pids excluded (by_local_ports ports) = elim (util.parse_integer_list ports) [
    | err e ↦ pure (err (env.return_fail parameter_illegal ("illegal parameter local-port, " +s e)))
    | ok list ↦ do
      result ← get_pids_by_local_ports env excluded list
      pure (elim result [
        | err e ↦ err (env.return_fail parameter_illegal ("illegal parameter ports, " +s e))
        | ok pids ↦ ok pids
      ])
  ]
  matched_pids excluded (by_pid pid) = pure (ok (split b',' pid))
  matched_pids excluded by_nothing = pure (ok [])

  -- killProcessName
  unfoldable pub kill_process_name : Matcher → String
  kill_process_name (by_process process) = process
  kill_process_name (by_process_cmd cmd) = cmd
  kill_process_name _ = ""

  -- The end of `getPids`.
  unfoldable pub pids_response : PidFlags → List String → Response
  unfolding limit_pids kill_process_name matcher
  pids_response f [] =
      if f.ignore_process_not_found
      then env.plain_success
      else env.return_fail os_cmd_exec_failed
          (kill_process_name (matcher f) +s " process not found")
  pids_response f (p ∷ pids) =
      env.return_success
        (join (limit_pids (atoi f.count_value) (util.remove_duplicates (p ∷ pids))) " ")

  -- err != nil for a count that is given
  unfoldable pub count_error : PidFlags → Option Response
  count_error f = if str_eq f.count_value "" then none else (elim (atoi f.count_value) [
    | some n ↦ none
    | none ↦ some (
        env.fail_with_flags parameter_illegal
          ("count" ∷ f.count_value ∷ env.atoi_error f.count_value ∷ []))
  ])

  -- From the count on.
  unfoldable pub find_pids : PidFlags → M Response
  unfolding matched_pids exclude_process_value
  find_pids f = elim (count_error f) [
    | some response ↦ pure response
    | none ↦ do
      result ← matched_pids (exclude_process_value f) (matcher f)
      pure (elim result [ err response ↦ response | ok pids ↦ pids_response f pids ])
  ]

  -- checkProcessInvalid, unless processes that are not found are ignored
  unfoldable pub check_unless_ignored : PidFlags → M (Option Response)
  unfolding check_process_invalid exclude_process_value
  check_unless_ignored f = elim f.ignore_process_not_found [
    | true ↦ pure none
    | false ↦ check_process_invalid (exclude_process_value f) (matcher f)
  ]

  unfoldable pub get_pids : PidFlags → M Response
  unfolding find_pids check_unless_ignored
  get_pids f =
      elim (str_eq f.process ""
        && str_eq f.process_cmd ""
        && str_eq f.local_ports ""
        && str_eq f.pid "") [
          | true ↦
              pure (env.fail_with_flags parameter_less ("pid|process|process-cmd|local-port" ∷ []))
          | false ↦ do
            invalid ← check_unless_ignored f
            elim invalid [ some response ↦ pure response | none ↦ find_pids f ]
        ]

  -- KillProcessExecutor.Exec
  unfoldable pub kill_exec : String → Context → Flags → M Response
  unfolding get_pids
  kill_exec uid ctx flags = elim ctx.destroy [
    | true ↦ pure (env.return_success uid)
    | false ↦ do
      response ← get_pids (pid_flags flags)
      elim response.success [
        | false ↦ pure response
        | true ↦ do
          pids ← text_of response
          elim (str_eq (flag flags "signal") "") [
            | true ↦ pure (env.fail_with_flags parameter_less ("signal" ∷ []))
            | false ↦ run_cmd env "kill" ("-" +s flag flags "signal" +s " " +s pids)
          ]
      ]
  ]

  -- StopProcessExecutor.Exec
  unfoldable pub stop_exec : Context → Flags → M Response
  unfolding get_pids
  stop_exec ctx flags = do
    response ← get_pids (pid_flags flags)
    elim response.success [
      | false ↦ pure response
      | true ↦ do
        pids ← text_of response
        elim ctx.destroy [
          | true ↦ run_cmd env "kill" ("-CONT " +s pids)
          | false ↦ run_cmd env "kill" ("-STOP " +s pids)
        ]
    ]
