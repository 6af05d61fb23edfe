-- ===== src/Network/Occupy.antt =====
-- exec/network/network_occupy.go.
pub mod Named
pub mod Killed
use chaosblade_exec_os.Prelude.{
  String, List, [], ◌∷◌, Option, none, some, Bool, true, false, str_eq, if◌then◌else◌,
}
use chaosblade_exec_os.Go.Strings.{◌+s◌, split, trim_space}
use chaosblade_exec_os.Channel.{
  Env, Response, Context, Flags, flag, flag_is_true, Trace, forbidden, parameter_less,
  os_cmd_exec_failed, M, pure, hung, ◌>>=◌, text_of, run_cmd,
}
use chaosblade_exec_os.Exec.{destroy}

-- http.ListenAndServe: the text of its error, or it serves for ever.
abbrev pub Listen : Type 0
Listen = Trace → String → Option String

-- The text in front of the first slash, if there is one behind another character.
unfoldable pub pid_of : String → Option String
unfolding split
pid_of message = elim (split b'/' message) as (λ x. Option String) [
  | [] ↦ none
  | pid ∷ [] ↦ none
  | pid ∷ program ∷ rest ↦ if str_eq pid "" then none else some pid
]

abbrev pub netstat_args : String → String
netstat_args port =
    "-tuanp | awk '{print $4,$7}' | grep \":" +s port +s "\" | head -n 1 | awk '{print $NF}'"

module _ (env : Env) (listen : Listen) where
  unfoldable pub occupy_start : String → M Response
  occupy_start port t = elim (listen t (":" +s port)) [
    | none ↦ hung t
    | some e ↦ pure (env.return_fail os_cmd_exec_failed ("listen and serve fail " +s e)) t
  ]

  -- The process that uses the port is killed, if netstat names one.
  unfoldable pub free_and_start : String → M Response
  unfolding occupy_start pid_of trim_space
  free_and_start port = do
    response ← run_cmd env "netstat" (netstat_args port)
    elim response.success as (λ x. M Response) [
      | false ↦ pure response
      | true ↦ do
        text ← text_of response
        elim (pid_of (trim_space text)) as (λ x. M Response) [
          | none ↦ occupy_start port
          | some pid ↦ do
            killed ← run_cmd env "kill" ("-9 " +s pid)
            elim killed.success as (λ x. M Response) [
              | false ↦ pure killed
              | true ↦ occupy_start port
            ]
        ]
    ]

  unfoldable pub occupy_exec : Context → Flags → M Response
  unfolding free_and_start occupy_start destroy flag flag_is_true
  occupy_exec ctx flags =
      if env.is_effective_root
      then (if str_eq (flag flags "port") ""
          then pure (env.fail_with_flags parameter_less ("port" ∷ []))
          else if ctx.destroy
          then destroy env ctx (some "chaos_occupynetwork") "network occupy"
          else if flag_is_true flags "force"
          then free_and_start (flag flags "port")
          else occupy_start (flag flags "port"))
      else pure (env.fail_with_flags forbidden [])
