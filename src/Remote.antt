-- ===== src/Remote.antt =====
-- exec/executor_ssh.go: the executor that installs and runs blade on another host.
pub mod Installed
use chaosblade_exec_os.Prelude.{
  ℕ, zero, suc, String, List, [], ◌∷◌, Option, none, some, Bool, true, false, str_eq, if◌then◌else◌,
}
use chaosblade_exec_os.Prelude.Result.{Result, ok, err}
use chaosblade_exec_os.Go.Strings.{◌+s◌, replace_all, trim_space}
use chaosblade_exec_os.Go.Strconv.{ℤ, pos, negsuc, atoi, atoi_text}
use chaosblade_exec_os.Go.Path.{join_path}
use chaosblade_exec_os.Channel.{
  Env, Response, Context, Flags, flag, flag_is_true, Trace, ssh_connect, ssh_run, parameter_illegal,
  os_cmd_exec_failed, ssh_exec_failed, ssh_exec_nothing, M, pure, returned, ◌>>=◌,
}

-- An SSHClient.
pub record Client : Type 0 where
  pub host : String
  pub username : String
  pub key : String
  pub key_passphrase : String
  pub password : String
  pub port : ℕ

-- The output of a command, `none` for nil, and its error.
abbrev pub Output : Type 0
Output = Option String × Option String

-- What is not read: gopass.GetPasswd, the error of `connect`, sessions of ssh, spec.Decode with nil,
-- spec.ConvertExpMatchersToString without the flags of ssh, and version.BladeVersion.
pub record Host : Type 0 where
  pub password : Result String String
  pub connect_error : Trace → Client → Option String
  pub session_error : Trace → Client → Option String
  pub combined_output : Trace → Client → String → Output
  pub decode : String → Response
  pub matchers : Flags → String
  pub blade_version : String

module _ (env : Env) (host : Host) where
  -- RunCommand has the client as a value: the connection that it makes is lost with it, so each
  -- command makes one.
  unfoldable pub run_command : Client → String → M Output
  run_command client command t = elim (host.connect_error t client) [
    | some e ↦ returned (none, some e) (ssh_connect ∷ t)
    | none ↦ elim (host.session_error (ssh_connect ∷ t) client) [
      | some e ↦ returned (none, some e) (ssh_connect ∷ t)
      | none ↦
          returned (host.combined_output (ssh_connect ∷ t) client command)
            (ssh_run command ∷ ssh_connect ∷ t)
    ]
  ]

  -- The response if the command fails.
  unfoldable pub run_command_with_response : Client → String → M (Option Response)
  unfolding run_command
  run_command_with_response client command = do
    output ← run_command client command
    pure (elim output.1 as (λ x. Option Response) [
      | none ↦ none
      | some e ↦ some (elim output.0 as (λ x. Response) [
        | none ↦ env.fail_with_flags os_cmd_exec_failed (command ∷ e ∷ [])
        | some buf ↦
            env.fail_with_flags os_cmd_exec_failed (command ∷ ("buf is " +s buf +s ", " +s e) ∷ [])
      ])
    ])

  unfoldable pub convert_output_to_response : Output → Response
  unfolding trim_space
  convert_output_to_response (buf, error) =
      let output = trim_space (elim buf as (λ x. String) [ none ↦ "" | some s ↦ s ]) in
      elim error as (λ x. Response) [
        | some e ↦
            if (host.decode e).success
            then host.decode e
            else env.fail_with_flags ssh_exec_failed (output ∷ e ∷ [])
        | none ↦
            if str_eq output "" then env.fail_with_flags ssh_exec_nothing [] else host.decode output
      ]

  -- The rest, unless a command fails.
  abbrev pub after_command : Client → String → M Response → M Response
  after_command client command rest = do
    failed ← run_command_with_response client command
    elim failed as (λ x. M Response) [ some response ↦ pure response | none ↦ rest ]

  abbrev pub mkdir_command : String → String
  mkdir_command path = "if [ ! -d \"" +s path +s "\" ]; then mkdir " +s path +s "; fi;"

  abbrev tabs : String
  tabs = "\n\t\t\t\t\t\t\t\t\t\t\t\t\t\t"

  abbrev pub install_command : String → String → String → String
  install_command blade url path =
      "if  [ ! -f \"" +s blade +s "\" ];then" +s tabs +s "wget " +s url +s ";" +s tabs
      +s "if [ $? -ne 0 ]; then exit 1; fi;" +s tabs +s "tar -zxf $(echo \"" +s url
      +s "\" |awk -F '/' '{print $NF}') -C " +s path +s " --strip-components 1;" +s tabs
      +s "if [ $? -ne 0 ]; then exit 1; fi;" +s tabs +s "rm -f $(echo \"" +s url
      +s "\" |awk -F '/' '{print $NF}');" +s "\n\t\t\t\t\t\t\t\t\t\t\t\t\tfi"

  abbrev pub create_command : String → String → String → String → String → String
  create_command blade target action matchers uid =
      blade +s " create " +s target +s " " +s action +s " " +s matchers +s " --uid " +s uid +s " -d"

  abbrev pub run_and_convert : Client → String → M Response
  run_and_convert client command = do
    output ← run_command client command
    pure (convert_output_to_response output)

  unfoldable pub release_url : Flags → String
  unfolding flag
  release_url flags =
      if str_eq (flag flags "blade-release") ""
      then "https://chaosblade.oss-cn-hangzhou.aliyuncs.com/agent/github/" +s host.blade_version
        +s "/chaosblade-" +s host.blade_version +s "-linux-amd64.tar.gz"
      else flag flags "blade-release"

  -- The installation, and the experiment.
  unfoldable pub install_and_create :
      Client → Flags → String → String → String → String → M Response
  unfolding run_command_with_response run_command convert_output_to_response release_url join_path
  install_and_create client flags uid target action path =
      after_command client (mkdir_command path) (
        after_command client (install_command (join_path path "blade") (release_url flags) path) (
          run_and_convert client
            (create_command (join_path path "blade") target action (host.matchers flags) uid)))

  unfoldable pub run_blade : Client → Context → Flags → String → String → String → M Response
  unfolding install_and_create run_command_with_response join_path flag flag_is_true
  run_blade client ctx flags uid target action =
      let path =
        if str_eq (flag flags "install-path") ""
        then "/opt/chaosblade"
        else flag flags "install-path" in
      if ctx.destroy
      then run_and_convert client (join_path path "blade" +s " destroy " +s uid)
      else if flag_is_true flags "override-blade-release"
      then after_command client ("rm -rf " +s path)
          (install_and_create client flags uid target action path)
      else install_and_create client flags uid target action path

  -- The port, 22 without the flag.
  unfoldable pub ssh_port : Flags → Result Response ℕ
  unfolding flag atoi atoi_text
  ssh_port flags =
      let illegal : Result Response ℕ = err (
        env.fail_with_flags parameter_illegal
          ("port" ∷ atoi_text (flag flags "ssh-port") ∷ "it must be a positive integer" ∷ [])) in
      if str_eq (flag flags "ssh-port") ""
      then ok 22
      else (elim (atoi (flag flags "ssh-port")) as (λ x. Result Response ℕ) [
        | none ↦ illegal
        | some (negsuc n) ↦ illegal
        | some (pos zero) ↦ illegal
        | some (pos (suc n)) ↦ ok (suc n)
      ])

  -- The password, or the passphrase of the key if one is asked for.
  unfoldable pub secrets : Flags → Result Response (String × String)
  unfolding flag flag_is_true
  secrets flags =
      if str_eq (flag flags "ssh-key") ""
      then (elim host.password as (λ x. Result Response (String × String)) [
        | err e ↦ err (env.fail_with_flags parameter_illegal ("password" ∷ "****" ∷ e ∷ []))
        | ok password ↦ ok (password, "")
      ])
      else if flag_is_true flags "ssh-key-passphrase"
      then (elim host.password as (λ x. Result Response (String × String)) [
        | err e ↦
            err
              (env.fail_with_flags parameter_illegal ("passphrase" ∷ flag flags "ssh-key" ∷ e ∷ []))
        | ok passphrase ↦ ok ("", passphrase)
      ])
      else ok ("", "")

  unfoldable pub ssh_exec : String → Context → Flags → String → String → M Response
  unfolding ssh_port secrets run_blade flag replace_all
  ssh_exec uid ctx flags target action = elim (ssh_port flags) as (λ x. M Response) [
    | err response ↦ pure response
    | ok port ↦ elim (secrets flags) as (λ x. M Response) [
      | err response ↦ pure response
      | ok (password, passphrase) ↦
          run_blade
            (record {
              host = flag flags "ssh-host";
              username = flag flags "ssh-user";
              key = flag flags "ssh-key";
              key_passphrase = replace_all "\n" "" passphrase;
              password = replace_all "\n" "" password;
              port = port;
            })
            ctx flags uid target action
    ]
  ]
