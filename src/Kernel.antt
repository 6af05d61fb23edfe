-- ===== src/Kernel.antt =====
-- exec/kernel: kernel_delay.go and kernel_error.go.
pub mod Where
use chaosblade_exec_os.Prelude.{
  String, List, [], ◌∷◌, Option, none, some, Bool, true, false, not, ◌&&◌, str_eq, if◌then◌else◌,
}
use chaosblade_exec_os.Prelude.Result.{Result, ok, err}
use chaosblade_exec_os.Go.Strings.{◌+s◌, join, split}
use chaosblade_exec_os.Go.Path.{join_path}
use chaosblade_exec_os.Channel.{
  Env, Response, Context, Flags, flag, parameter_illegal, parameter_less, parameter_invalid, M,
  pure, run_cmd,
}
use chaosblade_exec_os.Exec.{destroy}

-- ParseIntegerListToStringSlice of package util.
abbrev pub Parser : Type 0
Parser = String → Result String (List String)

-- Which calls are injected: --first, --end and --step.
unfoldable pub with_when : String → String → String → String → String
with_when first end step args =
    if str_eq first ""
    then args
    else if not (str_eq step "") && not (str_eq end "")
    then args +s ":when=" +s first +s ".." +s end +s "+" +s step
    else if not (str_eq step "")
    then args +s ":when=" +s first +s "+" +s step
    else if not (str_eq end "")
    then args +s ":when=" +s first +s ".." +s end
    else args +s ":when=" +s first

-- Each process is put in front.
unfoldable pub with_pids : List String → String → String
with_pids [] args = args
with_pids (pid ∷ rest) args = with_pids rest ("-p " +s pid +s " " +s args)

unfoldable pub delay_args : String → String → String → String
delay_args syscall_name time delay_loc =
    if str_eq delay_loc "enter"
    then "-f -e inject=" +s syscall_name +s ":delay_enter=" +s time
    else if str_eq delay_loc "exit"
    then "-f -e inject=" +s syscall_name +s ":delay_exit=" +s time
    else ""

module _ (env : Env) where
  -- The program beside this one.
  unfoldable pub run_strace : String → String → String → String → String → M Response
  unfolding with_pids with_when split join_path
  run_strace pid_list first end step args =
      if str_eq pid_list ""
      then pure (env.fail_with_flags parameter_invalid ("pid" ∷ pid_list ∷ "pid is nil" ∷ []))
      else run_cmd env (join_path env.program_path "strace")
          (with_pids (split b',' pid_list) (with_when first end step args))

  unfoldable pub delay_start :
      String → String → String → String → String → String → String → M Response
  unfolding run_strace delay_args
  delay_start pid_list time syscall_name delay_loc first end step =
      run_strace pid_list first end step (delay_args syscall_name time delay_loc)

  unfoldable pub error_start : String → String → String → String → String → String → M Response
  unfolding run_strace
  error_start pid_list return_value syscall_name first end step =
      run_strace pid_list first end step
        ("-f -e inject=" +s syscall_name +s ":error=" +s return_value)

  -- The list of --pid, "" without it.
  unfoldable pub pid_list_of : Parser → Flags → Result Response String
  unfolding flag join
  pid_list_of parse flags =
      if str_eq (flag flags "pid") ""
      then ok ""
      else (elim (parse (flag flags "pid")) as (λ x. Result Response String) [
        | err e ↦ err (env.fail_with_flags parameter_illegal ("pid" ∷ flag flags "pid" ∷ e ∷ []))
        | ok pids ↦ ok (join pids ",")
      ])

  -- The rest, unless a flag is missing.
  abbrev required : Flags → String → M Response → M Response
  required flags name rest =
      if str_eq (flag flags name) ""
      then pure (env.fail_with_flags parameter_less (name ∷ []))
      else rest

  unfoldable pub strace_delay_exec : Parser → Context → Flags → M Response
  unfolding pid_list_of delay_start destroy flag
  strace_delay_exec parse ctx flags = elim (pid_list_of parse flags) as (λ x. M Response) [
    | err response ↦ pure response
    | ok pids ↦ required flags "time" (
        required flags "syscall-name" (
          required flags "delay-loc" (
            if ctx.destroy
            then destroy env ctx (some "chaos_stracedelay") "strace delay"
            else delay_start pids (flag flags "time") (flag flags "syscall-name")
                (flag flags "delay-loc") (flag flags "first") (flag flags "end")
                (flag flags "step"))))
  ]

  -- No program is named where it is destroyed.
  unfoldable pub strace_error_exec : Parser → Context → Flags → M Response
  unfolding pid_list_of error_start destroy flag
  strace_error_exec parse ctx flags = elim (pid_list_of parse flags) as (λ x. M Response) [
    | err response ↦ pure response
    | ok pids ↦ required flags "return-value" (
        required flags "syscall-name" (
          if ctx.destroy
          then destroy env ctx none "strace delay"
          else error_start pids (flag flags "return-value") (flag flags "syscall-name")
              (flag flags "first") (flag flags "end") (flag flags "step")))
  ]
