-- ===== src/Channel.antt =====
-- The channel of chaosblade-spec-go, on which every experiment runs its commands, as the code uses
-- it. What answers is a parameter: each answer may depend on all calls made so far, which are kept
-- as a trace, the newest call first. The functions of the packages `spec` and `util` are parameters
-- too, with what the code relies on as laws.
pub mod Laws
use chaosblade_exec_os.Prelude.{
  ℕ, ◌≡◌, String, List, [], ◌∷◌, Option, none, some, Bool, true, false, str_eq,
}
use chaosblade_exec_os.Prelude.Result.{Result}

-- The codes of package `spec` that the code names.
pub data Code : Type 0 where
  parameter_less parameter_invalid parameter_illegal parameter_invalid_pro_name : Code
  process_id_by_name_failed os_cmd_exec_failed forbidden backfile_exists file_not_exist : Code
  systemd_not_found command_systemctl_not_found channel_nil action_not_support : Code
  command_taskset_not_found command_dd_not_found ssh_exec_failed ssh_exec_nothing : Code

-- spec.Response; a result that is no text does not occur, and `none` is nil.
pub record Response : Type 0 where
  pub success : Bool
  pub err : String
  pub result : Option String

pub data Call : Type 0 where
  -- channel.Run(ctx, script, args)
  run : String → String → Call
  -- channel.IsCommandAvailable(ctx, name), channel.IsAllCommandsAvailable(ctx, names)
  command_available : String → Call
  all_commands_available : List String → Call
  -- channel.GetPidsByProcessName, GetPidsByProcessCmdName, GetPidsByLocalPorts
  pids_by_process_name pids_by_process_cmd_name : String → Call
  pids_by_local_ports : List String → Call
  -- GetPidsByProcessName and Run of the local channel of exec/exec.go, the first with the value of
  -- the context's process key
  local_pids : String → String → Call
  local_run : String → String → Call
  -- IsAllCommandsAvailable of a local channel
  local_all_commands_available : List String → Call
  -- exec.Command(…).Start(): a command line that is started and not waited for
  spawn : String → Call
  -- a connection of ssh, and a command in a session of one
  ssh_connect : Call
  ssh_run : String → Call

abbrev pub Trace : Type 0
Trace = List Call

-- What the code does not implement: the answers to the calls, and functions of spec and util.
pub record Env : Type 0 where
  pub answer : Trace → String → String → Response
  pub has_command : Trace → String → Bool
  -- `none`: all are available
  pub missing_command : Trace → List String → Option Response
  pub pids_of_name : Trace → String → String → Result String (List String)
  pub pids_of_cmd : Trace → String → String → Result String (List String)
  pub pids_of_ports : Trace → String → List String → Result String (List String)
  -- the error is not read
  pub local_pids_of : Trace → String → String → List String
  pub local_answer : Trace → String → String → Response
  pub local_missing_command : Trace → List String → Option Response
  -- the error of a command line that cannot be started
  pub spawn_error : Trace → String → Option String
  -- os.Getuid() == 0
  pub is_root : Bool
  -- os.Geteuid() == 0
  pub is_effective_root : Bool
  -- util.GetProgramPath() and os.Args[0]
  pub program_path : String
  pub program_name : String
  -- spec.UnknownUid and spec.ChaosOsBin
  pub unknown_uid : String
  pub chaos_os_bin : String
  -- spec.ResponseFailWithFlags, spec.ReturnFail, spec.ReturnSuccess
  pub fail_with_flags : Code → List String → Response
  pub return_fail : Code → String → Response
  pub return_success : String → Response
  -- spec.Success()
  pub plain_success : Response
  -- spec.<code>.Sprintf, spec.CommandSsNotFound.Msg, and the text of an error of strconv.Atoi
  pub sprintf_code : Code → List String → String
  pub command_ss_not_found_msg : String
  pub atoi_error : String → String
  pub fail_with_flags_fails : (c : Code) (fs : List String) → (fail_with_flags c fs).success ≡ false
  pub return_fail_fails : (c : Code) (s : String) → (return_fail c s).success ≡ false
  pub return_success_succeeds : (s : String) → (return_success s).success ≡ true
  pub plain_success_succeeds : plain_success.success ≡ true
  pub return_success_result : (s : String) → (return_success s).result ≡ some s

-- The context of an execution: the uid, and whether the experiment is to be destroyed.
pub record Context : Type 0 where
  pub uid : Option String
  pub destroy : Bool

-- model.ActionFlags, a map; `none` is a missing key.
abbrev pub Flags : Type 0
Flags = String → Option String

-- model.ActionFlags[name]: a missing key reads as "".
unfoldable pub flag : Flags → String → String
flag flags name = elim (flags name) [ none ↦ "" | some value ↦ value ]

-- model.ActionFlags[name] == "true"
unfoldable pub flag_is_true : Flags → String → Bool
unfolding flag
flag_is_true flags name = str_eq (flag flags name) "true"

-- How an execution ends: it returns, it panics, or it runs for ever.
pub data Outcome (A : Type 0) : Type 0 where
  returned : A → Trace → Outcome A
  panicked : Trace → Outcome A
  hung : Trace → Outcome A

abbrev pub M : Type 0 → Type 0
M A = Trace → Outcome A

abbrev pub pure : {A : Type 0} → A → M A
pure a t = returned a t

abbrev pub bind_outcome : {A B : Type 0} → Outcome A → (A → M B) → Outcome B
bind_outcome (returned a t) f = f a t
bind_outcome (panicked t) f = panicked t
bind_outcome (hung t) f = hung t

infixl 5 ◌>>=◌ ◌>>◌
abbrev pub ◌>>=◌ : {A B : Type 0} → M A → (A → M B) → M B
◌>>=◌ m f t = bind_outcome (m t) f

abbrev pub ◌>>◌ : {A B : Type 0} → M A → M B → M B
m >> k = m >>= λ _. k

-- A loop that may not end.
abbrev pub or_hang : {A : Type 0} → Option A → M A
or_hang none t = hung t
or_hang (some a) t = returned a t

-- response.Result.(string)
abbrev pub text_of : Response → M String
text_of r t = elim r.result [ none ↦ panicked t | some s ↦ returned s t ]

module _ (env : Env) where
  abbrev pub run_cmd : String → String → M Response
  run_cmd script args t = returned (env.answer t script args) (run script args ∷ t)

  abbrev pub is_command_available : String → M Bool
  is_command_available name t = returned (env.has_command t name) (command_available name ∷ t)

  -- The response if a command is missing.
  abbrev pub is_all_commands_available : List String → M (Option Response)
  is_all_commands_available names t =
      returned (env.missing_command t names) (all_commands_available names ∷ t)

  abbrev pub get_pids_by_process_name : String → String → M (Result String (List String))
  get_pids_by_process_name excluded name t =
      returned (env.pids_of_name t excluded name) (pids_by_process_name name ∷ t)

  abbrev pub get_pids_by_process_cmd_name : String → String → M (Result String (List String))
  get_pids_by_process_cmd_name excluded name t =
      returned (env.pids_of_cmd t excluded name) (pids_by_process_cmd_name name ∷ t)

  abbrev pub get_pids_by_local_ports : String → List String → M (Result String (List String))
  get_pids_by_local_ports excluded ports t =
      returned (env.pids_of_ports t excluded ports) (pids_by_local_ports ports ∷ t)

  abbrev pub local_get_pids : String → String → M (List String)
  local_get_pids key name t = returned (env.local_pids_of t key name) (local_pids key name ∷ t)

  abbrev pub local_run_cmd : String → String → M Response
  local_run_cmd script args t =
      returned (env.local_answer t script args) (local_run script args ∷ t)

  abbrev pub local_all_commands : List String → M (Option Response)
  local_all_commands names t =
      returned (env.local_missing_command t names) (local_all_commands_available names ∷ t)

  -- The error, if the command line cannot be started.
  abbrev pub start_process : String → M (Option String)
  start_process line t = returned (env.spawn_error t line) (spawn line ∷ t)
