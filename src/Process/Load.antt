-- ===== src/Process/Load.antt =====
-- exec/process/process_load.go.
pub mod Spawned
use chaosblade_exec_os.Prelude.{
  ℕ, zero, suc, String, List, [], ◌∷◌, Option, none, some, Bool, true, false, not, str_eq,
  if◌then◌else◌,
}
use chaosblade_exec_os.Prelude.Result.{Result, ok, err}
use chaosblade_exec_os.Go.Strings.{◌+s◌, trim_space}
use chaosblade_exec_os.Go.Strconv.{ℤ, pos, negsuc, atoi, atoi_text, int_text}
use chaosblade_exec_os.Channel.{
  Env, Response, Context, Flags, flag, parameter_illegal, action_not_support, M, pure, hung, ◌>>=◌,
  ◌>>◌, text_of, is_all_commands_available, local_run_cmd, start_process,
}
use chaosblade_exec_os.Exec.{destroy}

-- The ping, as a user.
abbrev pub ping_line : String → String
ping_line user =
    if str_eq user ""
    then "ping 127.0.0.1 > /dev/null"
    else "su -c 'ping 127.0.0.1 > /dev/null' " +s user

abbrev pub bash_line : String → String
bash_line line = "/bin/bash -c " +s line

module _ (env : Env) where
  -- simpleProc; an error is only logged.
  unfoldable pub simple_proc : String → M (Option String)
  simple_proc line = start_process env (bash_line line)

  -- loopProc for a number of rounds at most: the first that cannot be started ends it.
  unfoldable pub loop_proc : ℕ → String → M Bool
  loop_proc zero line = pure true
  loop_proc (suc rounds) line = do
    failed ← start_process env (bash_line line)
    elim failed as (λ x. M Bool) [ some e ↦ pure false | none ↦ loop_proc rounds line ]

  unfoldable pub simple_procs : ℕ → String → M Bool
  unfolding simple_proc
  simple_procs zero line = pure true
  simple_procs (suc count) line = do simple_proc line; simple_procs count line

  -- ctx.Value(spec.Uid) as a result
  abbrev pub uid_success : Context → Response
  uid_success ctx = elim ctx.uid [
    | none ↦ record { success = true; err = ""; result = none }
    | some uid ↦ env.return_success uid
  ]

  -- With the count 0 it never returns; `rounds` are those of its goroutine.
  unfoldable pub load_start : Context → ℕ → String → ℕ → M Response
  unfolding loop_proc simple_procs
  load_start ctx zero user rounds = do loop_proc rounds (ping_line user); λ t. hung t
  load_start ctx (suc count) user rounds = do
    simple_procs (suc count) (ping_line user)
    pure (uid_success ctx)

  abbrev kill_line : String
  kill_line = "ps aux | grep 'ping 127' | grep -v grep | awk '{print $2}' | xargs kill -9"

  unfoldable pub load_stop : Context → String → M Response
  unfolding simple_proc destroy
  load_stop ctx user = do
    if str_eq user "" then pure none else simple_proc ("su -c \"" +s kill_line +s "\" " +s user)
    simple_proc kill_line
    destroy env ctx (some "chaos_processload") "process load"

  -- The count, 0 without the flag.
  unfoldable pub load_count : Flags → Result Response ℕ
  unfolding flag atoi atoi_text int_text
  load_count flags =
      if str_eq (flag flags "count") ""
      then ok 0
      else (elim (atoi (flag flags "count")) as (λ x. Result Response ℕ) [
        | none ↦ err (
            env.fail_with_flags parameter_illegal
              ("count" ∷ atoi_text (flag flags "count") ∷ "is not a number" ∷ []))
        | some (pos n) ↦ ok n
        | some (negsuc n) ↦ err (
            env.fail_with_flags parameter_illegal
              ("count" ∷ int_text (negsuc n) ∷ "must be a positive integer" ∷ []))
      ])

  -- From the answer of `ulimit` on.
  unfoldable pub load_limited : Context → Flags → ℕ → String → M Response
  unfolding load_count load_start trim_space atoi flag
  load_limited ctx flags rounds limit =
      if str_eq limit "unlimited"
      then pure (env.fail_with_flags action_not_support ("proc is unlimited!" ∷ []))
      else (elim (atoi limit) as (λ x. M Response) [
        | none ↦ pure (
            env.fail_with_flags action_not_support (env.atoi_error limit ∷ "proc is invalid!" ∷ []))
        | some n ↦ elim (load_count flags) as (λ x. M Response) [
          | err response ↦ pure response
          | ok count ↦ load_start ctx count (flag flags "user") rounds
        ]
      ])

  unfoldable pub load_create : Context → Flags → ℕ → M Response
  unfolding load_limited trim_space
  load_create ctx flags rounds = do
    response ← local_run_cmd env "ulimit" "-u"
    elim response.success as (λ x. M Response) [
      | false ↦ pure (env.fail_with_flags action_not_support ("command ulimit is not support" ∷ []))
      | true ↦ do text ← text_of response; load_limited ctx flags rounds (trim_space text)
    ]

  -- `has_user` is whether user.Lookup finds the user.
  unfoldable pub load_exec : (String → Bool) → Context → Flags → ℕ → M Response
  unfolding load_create load_stop flag
  load_exec has_user ctx flags rounds = do
    missing ← is_all_commands_available env ("ping" ∷ "ulimit" ∷ [])
    elim missing as (λ x. M Response) [
      | some response ↦ pure response
      | none ↦
          if str_eq (flag flags "user") ""
          then (if ctx.destroy then load_stop ctx "" else load_create ctx flags rounds)
          else if has_user (flag flags "user")
          then (if ctx.destroy
              then load_stop ctx (flag flags "user")
              else load_create ctx flags rounds)
          else pure (
              env.fail_with_flags parameter_illegal
                ("user" ∷ flag flags "user" ∷ "is invalid" ∷ []))
    ]
