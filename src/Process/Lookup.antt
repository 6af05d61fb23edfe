-- ===== src/Process/Lookup.antt =====
-- `getPids` of exec/process/process.go runs no command, and answers with processes or an error.
use chaosblade_exec_os.Prelude.{
  ◌≡◌, ◌∙◌, ◌&&◌, refl, String, List, [], ◌∷◌, Option, none, some, true, false, ◌⊎◌, inl, inr,
  str_eq, Bool-cases,
}
use chaosblade_exec_os.Prelude.Result.{Result, ok, err, Result-cases}
use chaosblade_exec_os.Go.Strings.{join, split}
use chaosblade_exec_os.Go.Strconv.{atoi}
use chaosblade_exec_os.Channel.{Env, Response, run, parameter_illegal, Trace, M, pure}
use chaosblade_exec_os.Channel.Laws.{Returns, Returns-bind, Returns-weaken}
use chaosblade_exec_os.Process.{
  Util, PidFlags, Matcher, by_process, by_process_cmd, by_local_ports, by_pid, by_nothing, matcher,
  exclude_process_value, limit_pids, invalid_if_none, check_process_invalid, matched_pids,
  pids_response, count_error, find_pids, check_unless_ignored, get_pids,
}

-- The commands that were run, without the questions asked about processes and commands.
abbrev pub runs_of : Trace → Trace
runs_of [] = []
runs_of (run script args ∷ t) = run script args ∷ runs_of t
runs_of (_ ∷ t) = runs_of t

-- The processes that are found for a matcher: those that the channel answered, at some time, to the
-- question for a name, a command line or ports, or those that the flag names.
abbrev pub Found : Env → Util → String → Matcher → List String → Type 0
Found env util excluded (by_process process) pids =
    (t : Trace) × (env.pids_of_name t excluded process ≡ ok pids)
Found env util excluded (by_process_cmd cmd) pids =
    (t : Trace) × (env.pids_of_cmd t excluded cmd ≡ ok pids)
Found env util excluded (by_local_ports ports) pids =
    (list : List String) × (util.parse_integer_list ports ≡ ok list)
    × (t : Trace) × (env.pids_of_ports t excluded list ≡ ok pids)
Found env util excluded (by_pid pid) pids = pids ≡ split b',' pid
Found env util excluded by_nothing pids = pids ≡ []

-- A response that names processes: at least one was found, and they are limited.
abbrev pub NamesPids : Env → Util → PidFlags → Response → Type 0
NamesPids env util f r =
    (p : String) × (rest : List String) × (Found env util (exclude_process_value f) (matcher f)
        (p ∷ rest)
      × (r.result
          ≡ some (join (limit_pids (atoi f.count_value) (util.remove_duplicates (p ∷ rest))) " ")))

-- What `getPids` answers: an error, a plain success if nothing is found and that is ignored, or
-- the processes.
abbrev pub PidsAnswer : Env → Util → PidFlags → Response → Type 0
PidsAnswer env util f r =
    (r.success ≡ false)
    ⊎ (((f.ignore_process_not_found ≡ true) × (r ≡ env.plain_success)) ⊎ NamesPids env util f r)

-- A response that is returned at once is no success.
abbrev FailsIfAny : Option Response → Type 0
FailsIfAny none = Unit
FailsIfAny (some r) = r.success ≡ false

abbrev FoundOrFails : Env → Util → String → Matcher → Result Response (List String) → Type 0
FoundOrFails env util excluded m (ok pids) = Found env util excluded m pids
FoundOrFails env util excluded m (err r) = r.success ≡ false

module _ (env : Env) (util : Util) where
  invalid_if_none-Fails :
      (parameter name : String) (pids : List String)
      → FailsIfAny (invalid_if_none env util parameter name pids)
  unfolding invalid_if_none
  invalid_if_none-Fails parameter name [] = env.fail_with_flags_fails _ _
  invalid_if_none-Fails parameter name (p ∷ pids) = tt

  check_process_invalid-runs :
      (x : String) (m : Matcher) (t : Trace)
      → Returns
          (λ r t'. (runs_of t' ≡ runs_of t) × FailsIfAny r)
          (check_process_invalid env util x m t)
  unfolding check_process_invalid
  check_process_invalid-runs x (by_process p) t = elim (Result-cases (env.pids_of_name t x p)) [
    | inl (e, q) ↦ rw (q, Returns) (refl, env.fail_with_flags_fails _ _)
    | inr (pids, q) ↦ rw (q, Returns) (refl, invalid_if_none-Fails _ _ pids)
  ]
  check_process_invalid-runs x (by_process_cmd c) t = elim (Result-cases (env.pids_of_cmd t x c)) [
    | inl (e, q) ↦ rw (q, Returns) (refl, env.fail_with_flags_fails _ _)
    | inr (pids, q) ↦ rw (q, Returns) (refl, invalid_if_none-Fails _ _ pids)
  ]
  check_process_invalid-runs x (by_local_ports ports) t =
      elim (Result-cases (util.parse_integer_list ports)) [
        | inl (e, q) ↦ rw (q, Returns) (refl, env.fail_with_flags_fails _ _)
        | inr (list, q) ↦ elim (Result-cases (env.pids_of_ports t x list)) [
          | inl (e, q') ↦ rw (q, Returns) (rw (q', Returns) (refl, invalid_if_none-Fails _ _ []))
          | inr (pids, q') ↦
              rw (q, Returns) (rw (q', Returns) (refl, invalid_if_none-Fails _ _ pids))
        ]
      ]
  check_process_invalid-runs x (by_pid pid) t = (refl, tt)
  check_process_invalid-runs x by_nothing t = (refl, invalid_if_none-Fails "" "" [])

  matched_pids-runs :
      (x : String) (m : Matcher) (t : Trace)
      → Returns
          (λ r t'. (runs_of t' ≡ runs_of t) × FoundOrFails env util x m r)
          (matched_pids env util x m t)
  unfolding matched_pids
  matched_pids-runs x (by_process p) t = elim (Result-cases (env.pids_of_name t x p)) [
    | inl (e, q) ↦ rw (q, Returns) (refl, env.return_fail_fails _ _)
    | inr (pids, q) ↦ rw (q, Returns) (refl, (t, q))
  ]
  matched_pids-runs x (by_process_cmd c) t = elim (Result-cases (env.pids_of_cmd t x c)) [
    | inl (e, q) ↦ rw (q, Returns) (refl, env.return_fail_fails _ _)
    | inr (pids, q) ↦ rw (q, Returns) (refl, (t, q))
  ]
  matched_pids-runs x (by_local_ports ports) t =
      elim (Result-cases (util.parse_integer_list ports)) [
        | inl (e, q) ↦ rw (q, Returns) (refl, env.return_fail_fails _ _)
        | inr (list, q) ↦ elim (Result-cases (env.pids_of_ports t x list)) [
          | inl (e, q') ↦ rw (q, Returns) (rw (q', Returns) (refl, env.return_fail_fails _ _))
          | inr (pids, q') ↦ rw (q, Returns) (rw (q', Returns) (refl, (list, q, t, q')))
        ]
      ]
  matched_pids-runs x (by_pid pid) t = (refl, refl)
  matched_pids-runs x by_nothing t = (refl, refl)

  pids_response-Answer :
      (f : PidFlags) (pids : List String)
      → Found env util (exclude_process_value f) (matcher f) pids
      → PidsAnswer env util f (pids_response env util f pids)
  unfolding pids_response
  pids_response-Answer f [] found = elim (Bool-cases f.ignore_process_not_found) [
    | inl ignored ↦ inr (inl (ignored, rw ignored refl))
    | inr reported ↦ inl (rw reported (env.return_fail_fails _ _))
  ]
  pids_response-Answer f (p ∷ rest) found =
      inr (inr (p, rest, (found, env.return_success_result _)))

  count_error-Fails : (f : PidFlags) → FailsIfAny (count_error env util f)
  unfolding count_error
  count_error-Fails f = elim (Bool-cases (str_eq f.count_value "")) [
    | inl empty ↦ rw empty tt
    | inr given ↦
        rw given
          (elim (atoi f.count_value)
            as (λ n. FailsIfAny (elim n as (λ x. Option Response) [
              | some n' ↦ none
              | none ↦ some (
                  env.fail_with_flags parameter_illegal
                    ("count" ∷ f.count_value ∷ env.atoi_error f.count_value ∷ []))
            ])) [ none ↦ env.fail_with_flags_fails _ _ | some n ↦ tt ])
  ]

  abbrev pub Answered : PidFlags → Trace → Response → Trace → Type 0
  Answered f t r t' = (runs_of t' ≡ runs_of t) × PidsAnswer env util f r

  find_pids-Answer : (f : PidFlags) (t : Trace) → Returns (Answered f t) (find_pids env util f t)
  unfolding find_pids
  find_pids-Answer f t = with_count (count_error env util f) refl (count_error-Fails f)
    where
      answered :
          (result : Result Response (List String)) (t' : Trace)
          → (runs_of t' ≡ runs_of t)
            × FoundOrFails env util (exclude_process_value f) (matcher f) result
          → Answered f t
              (elim result as (λ x. Response) [
                | err response ↦ response
                | ok pids ↦ pids_response env util f pids
              ])
              t'
      answered (err r) t' (same, fails) = (same, inl fails)
      answered (ok pids) t' (same, found) = (same, pids_response-Answer f pids found)

      with_count :
          (e : Option Response)
          → count_error env util f ≡ e
          → FailsIfAny e
          → Returns (Answered f t) (find_pids env util f t)
      with_count (some r) q fails = rw (q, Returns) (refl, inl fails)
      with_count none q fails =
          rw (q, Returns)
            (Returns-bind _ (Answered f t)
              (matched_pids env util (exclude_process_value f) (matcher f) t) _
              (matched_pids-runs (exclude_process_value f) (matcher f) t) answered)

  check_unless_ignored-runs :
      (f : PidFlags) (t : Trace)
      → Returns
          (λ r t'. (runs_of t' ≡ runs_of t) × FailsIfAny r)
          (check_unless_ignored env util f t)
  unfolding check_unless_ignored
  check_unless_ignored-runs f t = elim (Bool-cases f.ignore_process_not_found) [
    | inl ignored ↦ rw (ignored, Returns) (refl, tt)
    | inr reported ↦
        rw (reported, Returns) (check_process_invalid-runs (exclude_process_value f) (matcher f) t)
  ]

  -- `getPids` returns, runs no command, and answers as described.
  pub get_pids-Answer : (f : PidFlags) (t : Trace) → Returns (Answered f t) (get_pids env util f t)
  unfolding get_pids
  get_pids-Answer f t =
      elim (Bool-cases (
        str_eq f.process ""
        && str_eq f.process_cmd ""
        && str_eq f.local_ports ""
        && str_eq f.pid "")) [
          | inl nothing ↦ rw (nothing, Returns) (refl, inl (env.fail_with_flags_fails _ _))
          | inr given ↦
              rw (given, Returns)
                (Returns-bind _ (Answered f t) (check_unless_ignored env util f t) _
                  (check_unless_ignored-runs f t) checked)
        ]
    where
      checked :
          (invalid : Option Response) (t' : Trace)
          → (runs_of t' ≡ runs_of t) × FailsIfAny invalid
          → Returns (Answered f t) (
              (elim invalid as (λ x. M Response) [
                | some response ↦ pure response
                | none ↦ find_pids env util f
              ])
                t')
      checked (some r) t' (same, fails) = (same, inl fails)
      checked none t' (same, _) =
          Returns-weaken (Answered f t') _ (find_pids env util f t') (find_pids-Answer f t')
            λ r t'' (same', answer). (same' ∙ same, answer)
