-- ===== src/Process/Signals.antt =====
-- Which processes the executors of exec/process send a signal to.
use chaosblade_exec_os.Process.Lookup.{runs_of, Found, Answered, get_pids-Answer}
use chaosblade_exec_os.Prelude.{
  ℕ, zero, suc, ◌≡◌, ◌≤◌, refl, sym, ap, String, List, [], ◌∷◌, some, true, false, ◌⊎◌, inl, inr,
  str_eq, length, take, ltb, arith, Bool-cases,
}
use chaosblade_exec_os.Go.Strings.{◌+s◌, join}
use chaosblade_exec_os.Go.Strconv.{pos, atoi}
use chaosblade_exec_os.Channel.{
  Env, Response, Context, Flags, flag, flag_is_true, run, Trace, M, pure, ◌>>=◌, text_of, run_cmd,
  parameter_less,
}
use chaosblade_exec_os.Channel.Laws.{Returns, Returns-bind}
use chaosblade_exec_os.Process.{
  Util, PidFlags, pid_flags, exclude_process_value, matcher, limit_pids, get_pids, kill_exec,
}

module _ (env : Env) (util : Util) where
  take-short : (n : ℕ) (pids : List String) → length pids ≤ n → take n pids ≡ pids
  take-short zero [] short = refl
  take-short (suc n) [] short = refl
  take-short zero (p ∷ pids) short = absurd (omega (arith, short))
  take-short (suc n) (p ∷ pids) short = ap (λ x. p ∷ x) (take-short n pids (omega (arith, short)))

  limit_pids-take :
      (n : ℕ) (pids : List String) → limit_pids (some (pos (suc n))) pids ≡ take (suc n) pids
  unfolding limit_pids
  limit_pids-take n pids = elim (Bool-cases (ltb (suc n) (length pids))) [
    | inl longer ↦ rw longer refl
    | inr short ↦ rw short (sym (take-short (suc n) pids (ground arith)))
  ]

  -- What `kill` has run: nothing, if it fails, or one signal to the first of the processes that were found.
  abbrev pub Signalled : PidFlags → String → ℕ → Trace → Response → Trace → Type 0
  Signalled f signal n t r t' =
      (r.success ≡ false) × (runs_of t' ≡ runs_of t)
      ⊎ ((found : List String) × (Found env util (exclude_process_value f) (matcher f) found
            × (runs_of t'
                ≡ run "kill"
                    ("-" +s signal +s " " +s join (take n (util.remove_duplicates found)) " ")
                  ∷ runs_of t)))

  -- Unless the experiment is destroyed or processes that are not found are ignored, `kill` with a
  -- positive count returns, and either it fails and has run no command, or it has run exactly one:
  -- `kill` with the signal, for the first of the processes that were found by the flags, without
  -- duplicates and no more of them than the count.
  pub kill_exec-limited :
      (uid : String) (ctx : Context) (flags : Flags) (n : ℕ) (t : Trace)
      → ctx.destroy ≡ false
      → flag_is_true flags "ignore-not-found" ≡ false
      → atoi (flag flags "count") ≡ some (pos (suc n))
      → Returns
          (Signalled (pid_flags flags) (flag flags "signal") (suc n) t)
          (kill_exec env util uid ctx flags t)
  unfolding kill_exec pid_flags
  kill_exec-limited uid ctx flags n t created reported count =
      rw (created, Returns)
        (Returns-bind (Answered env util (pid_flags flags) t)
          (Signalled (pid_flags flags) (flag flags "signal") (suc n) t)
          (get_pids env util (pid_flags flags) t) _ (get_pids-Answer env util (pid_flags flags) t)
          sent)
    where
      sent :
          (r : Response) (t' : Trace)
          → Answered env util (pid_flags flags) t r t'
          → Returns (Signalled (pid_flags flags) (flag flags "signal") (suc n) t) (
              (elim r.success as (λ x. M Response) [
                | false ↦ pure r
                | true ↦ text_of r >>= λ pids.
                    elim (str_eq (flag flags "signal") "") as (λ x. M Response) [
                      | true ↦ pure (env.fail_with_flags parameter_less ("signal" ∷ []))
                      | false ↦ run_cmd env "kill" ("-" +s flag flags "signal" +s " " +s pids)
                    ]
              ])
                t')
      sent r t' (same, inl fails) = rw (fails, Returns) (inl (fails, same))
      sent r t' (same, inr (inl (ignored, _))) = cc
      sent r t' (same, inr (inr (p, rest, (found, names)))) = elim (Bool-cases r.success) [
        | inr fails ↦ rw (fails, Returns) (inl (fails, same))
        | inl good ↦
            rw (good, Returns)
              (rw (names, Returns)
                (elim (Bool-cases (str_eq (flag flags "signal") "")) [
                  | inl none_given ↦
                      rw (none_given, Returns) (inl (env.fail_with_flags_fails _ _, same))
                  | inr given ↦
                      rw (given, Returns)
                        (inr (
                          p ∷ rest,
                          (
                            found,
                            rw (same, count)
                                (ap
                                  (λ pids.
                                    run "kill" ("-" +s flag flags "signal" +s " " +s join pids " ")
                                    ∷ runs_of t)
                                  (limit_pids-take n (util.remove_duplicates (p ∷ rest)))),
                          ),
                        ))
                ]))
      ]
