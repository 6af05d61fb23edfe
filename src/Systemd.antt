-- ===== src/Systemd.antt =====
-- exec/systemd/systemd_stop.go: a service is stopped, or started again.
use chaosblade_exec_os.Prelude.{String, [], ◌∷◌, Option, none, some, true, false, str_eq}
use chaosblade_exec_os.Go.Strings.{◌+s◌}
use chaosblade_exec_os.Channel.{
  Env, Response, Context, Flags, flag, parameter_less, systemd_not_found,
  command_systemctl_not_found, M, pure, ◌>>=◌, run_cmd, is_command_available,
}

module _ (env : Env) where
  -- `none` is nil: the service is running.
  unfoldable pub check_service_invalid : String → M (Option Response)
  check_service_invalid service = do
    available ← is_command_available env "systemctl"
    elim available [
      | false ↦ pure (some (env.fail_with_flags command_systemctl_not_found []))
      | true ↦ do
        response ←
            run_cmd env "systemctl"
              ("status \"" +s service +s "\" | grep 'Active' | grep 'running'")
        elim response.success [
          | true ↦ pure none
          | false ↦
              pure (some (env.fail_with_flags systemd_not_found (service ∷ response.err ∷ [])))
        ]
    ]

  unfoldable pub start_service : String → M Response
  start_service service = run_cmd env "systemctl" ("start " +s service)

  unfoldable pub systemd_exec : Context → Flags → M Response
  unfolding flag check_service_invalid start_service
  systemd_exec ctx flags = elim (str_eq (flag flags "service") "") [
    | true ↦ pure (env.fail_with_flags parameter_less ("service" ∷ []))
    | false ↦ elim ctx.destroy [
      | true ↦ start_service (flag flags "service")
      | false ↦ do
        invalid ← check_service_invalid (flag flags "service")
        elim invalid [
          | some response ↦ pure response
          | none ↦ run_cmd env "systemctl" ("stop " +s flag flags "service")
        ]
    ]
  ]
