-- ===== src/Cpu/Bounds.antt =====
-- The load that `Exec` of exec/cpu/cpu.go starts, and the times of `burn`.
use chaosblade_exec_os.Prelude.{
  ℕ, zero, suc, ◌≤◌, ◌<◌, ◌≡◌, refl, String, true, false, ◌||◌, str_eq, ltb, leb→le, leb, inl, inr,
  arith, Bool-cases, Option-cases,
}
use mathlib.Core.Path.{subst}
use chaosblade_exec_os.Prelude.Result.{Result, ok, err, Result-cases}
use chaosblade_exec_os.Go.Strconv.{ℤ, pos, negsuc, atoi}
use chaosblade_exec_os.Go.Int64.{
  plus, minus, is_positive, less, minus-small, minus-below, IsInt64, plus-IsInt64,
}
use chaosblade_exec_os.Channel.{Env, Response, Flags, flag, Trace}
use chaosblade_exec_os.Channel.Laws.{Returns, Returns-bind}
use chaosblade_exec_os.Cpu.{
  Cpus, Load, bounded_flag, cpu_percent_of, climb_time_of, available_cpus, limited_count,
  cpu_count_of, cpu_list_and_count, cpu_load, at_least_zero, sleep_time, adjusted,
}

abbrev pub Within : ℕ → ℕ → ℤ → Type 0
Within lowest highest (pos n) = (lowest ≤ n) × (n ≤ highest)
Within lowest highest (negsuc n) = ⊥

-- What is no error has the property.
abbrev pub IfOk : {A : Type 0} → (A → Type 0) → Result Response A → Type 0
IfOk P (ok a) = P a
IfOk P (err response) = Unit

checked-Within :
    (bound : ℕ) (n : ℤ) → (less (pos bound) n || less n (pos 0)) ≡ false → Within 0 bound n
unfolding less
checked-Within bound (pos n) fits = ground arith
checked-Within bound (negsuc n) fits = cc

module _ (env : Env) (flags : Flags) where
  bounded_flag-Within :
      (name : String) (bound : ℕ) (default : ℤ) (no_number too_big : String)
      → Within 0 bound default
      → IfOk (Within 0 bound) (bounded_flag env flags name bound default no_number too_big)
  unfolding bounded_flag
  bounded_flag-Within name bound default no_number too_big is =
      elim (Bool-cases (str_eq (flag flags name) "")) [
        | inl absent ↦ rw (absent, IfOk) is
        | inr given ↦ elim (Option-cases (atoi (flag flags name))) [
          | inl unread ↦ rw (given, IfOk) (rw (unread, IfOk) tt)
          | inr (n, reads) ↦ elim (Bool-cases (less (pos bound) n || less n (pos 0))) [
            | inl outside ↦ rw (given, IfOk) (rw (reads, IfOk) (rw (outside, IfOk) tt))
            | inr inside ↦
                rw (given, IfOk)
                  (rw (reads, IfOk) (rw (inside, IfOk) (checked-Within bound n inside)))
          ]
        ]
      ]

  limited_count-Within :
      (cpus : Cpus) (available : ℕ) (count : ℤ)
      → 0 < available
      → Within 1 available (limited_count env cpus (pos available) count)
  unfolding limited_count is_positive less
  limited_count-Within cpus available (negsuc n) some_cpu = (some_cpu, ground arith)
  limited_count-Within cpus available (pos zero) some_cpu = (some_cpu, ground arith)
  limited_count-Within cpus available (pos (suc n)) some_cpu =
      elim (Bool-cases (ltb available (suc n))) [
        | inl more ↦ rw more (some_cpu, ground arith)
        | inr fits ↦ rw fits (ground arith, ground arith)
      ]

  module _ (cpus : Cpus) where
    -- The percentage is from 0 to 100, the climb from 0 to 600 seconds, and the count is from 1 to
    -- the number of processors, or there is a list and the count is 0.
    abbrev pub Bounded : Load → Type 0
    Bounded load =
        Within 0 100 load.cpu_percent
        × Within 0 600 load.climb_time
        × ((str_eq (flag flags "cpu-list") "" ≡ true → Within 1 cpus.num_cpu load.cpu_count)
            × (str_eq (flag flags "cpu-list") "" ≡ false → load.cpu_count ≡ pos 0))

    abbrev Counted : String × ℤ → Type 0
    Counted (list, count) =
        (str_eq (flag flags "cpu-list") "" ≡ true → Within 1 cpus.num_cpu count)
        × (str_eq (flag flags "cpu-list") "" ≡ false → count ≡ pos 0)

    cpu_count_of-Within :
        cpus.is_ns_exec ≡ false
        → 0 < cpus.num_cpu
        → IfOk (Within 1 cpus.num_cpu) (cpu_count_of env cpus flags)
    unfolding cpu_count_of available_cpus
    cpu_count_of-Within own some_cpu = elim (Bool-cases (str_eq (flag flags "cpu-count") "")) [
      | inl absent ↦
          rw (absent, IfOk) (rw own (limited_count-Within cpus cpus.num_cpu (pos 0) some_cpu))
      | inr given ↦ elim (Option-cases (atoi (flag flags "cpu-count"))) [
        | inl unread ↦ rw (given, IfOk) (rw (unread, IfOk) tt)
        | inr (n, reads) ↦
            rw (given, IfOk)
              (rw (reads, IfOk) (rw own (limited_count-Within cpus cpus.num_cpu n some_cpu)))
      ]
    ]

    list-Counted :
        (t : Trace)
        → cpus.is_ns_exec ≡ false
        → 0 < cpus.num_cpu
        → Returns (λ r t'. IfOk Counted r) (cpu_list_and_count env cpus flags t)
    unfolding cpu_list_and_count
    list-Counted t own some_cpu = elim (Bool-cases (str_eq (flag flags "cpu-list") "")) [
      | inl absent ↦ elim (Result-cases (cpu_count_of env cpus flags)) [
        | inl (e, fails) ↦ rw (absent, Returns) (rw (fails, Returns) tt)
        | inr (count, works) ↦
            rw (absent, Returns) (rw (works, Returns) (λ _. counted count works, λ given. cc))
      ]
      | inr given ↦ elim (Bool-cases (env.has_command t "taskset")) [
        | inr missing ↦ rw (given, Returns) (rw (missing, Returns) tt)
        | inl found ↦ elim (Result-cases (cpus.parse_integer_list (flag flags "cpu-list"))) [
          | inl (e, fails) ↦ rw (given, Returns) (rw (found, Returns) (rw (fails, Returns) tt))
          | inr (cores, works) ↦
              rw (given, Returns)
                (rw (found, Returns) (rw (works, Returns) (λ absent. cc, λ _. refl)))
        ]
      ]
    ]
      where
        counted : (count : ℤ) → cpu_count_of env cpus flags ≡ ok count → Within 1 cpus.num_cpu count
        counted count works =
            subst (IfOk (Within 1 cpus.num_cpu)) works (cpu_count_of-Within own some_cpu)

    -- On a channel that is not that of nsexec, and with at least one processor, `Exec` ends its
    -- checks with an error or with a load that is bounded: a percentage from 0 to 100, a climb of 0
    -- to 600 seconds, and without a list a count from 1 to the number of processors.
    pub cpu_load-Bounded :
        (t : Trace)
        → cpus.is_ns_exec ≡ false
        → 0 < cpus.num_cpu
        → Returns (λ r t'. IfOk Bounded r) (cpu_load env cpus flags t)
    unfolding cpu_load cpu_percent_of climb_time_of
    cpu_load-Bounded t own some_cpu = elim (Result-cases (cpu_percent_of env flags)) [
      | inl (e, fails) ↦ rw (fails, Returns) tt
      | inr (percent, works) ↦
          rw (works, Returns)
            (Returns-bind (λ r t'. IfOk Counted r) (λ r t'. IfOk Bounded r)
              (cpu_list_and_count env cpus flags t) _ (list-Counted t own some_cpu)
              λ r t' counted. elim (Result-cases r) [
                | inl (e, fails) ↦ rw (fails, Returns) tt
                | inr (cores, listed) ↦ elim (Result-cases (climb_time_of env flags)) [
                  | inl (e, fails) ↦ rw (listed, Returns) (rw (fails, Returns) tt)
                  | inr (climb, climbs) ↦
                      rw (listed, Returns)
                        (rw (climbs, Returns)
                          (
                            of_percent percent works,
                            of_climb climb climbs,
                            subst (IfOk Counted) listed counted,
                          ))
                ]
              ])
    ]
      where
        of_percent : (percent : ℤ) → cpu_percent_of env flags ≡ ok percent → Within 0 100 percent
        of_percent percent works =
            subst (IfOk (Within 0 100)) works
              (bounded_flag-Within "cpu-percent" 100 (pos 100) _ _ (omega arith, omega arith))

        of_climb : (climb : ℤ) → climb_time_of env flags ≡ ok climb → Within 0 600 climb
        of_climb climb works =
            subst (IfOk (Within 0 600)) works
              (bounded_flag-Within "climb-time" 600 (pos 0) _ _ (omega arith, omega arith))

slept-Within :
    (z : ℤ)
    → IsInt64 z
    → Within 0 1000000000 (at_least_zero (minus (pos 1000000000) (at_least_zero z)))
unfolding at_least_zero
slept-Within (negsuc n) small =
    rw (minus-small 1000000000 0 (omega arith) (omega arith)) (omega arith, omega arith)
slept-Within (pos n) small = elim (Bool-cases (leb n 1000000000)) [
  | inl within ↦
      rw (minus-small 1000000000 n (leb→le _ _ within) (omega arith)) (omega arith, omega arith)
  | inr over ↦ rw (minus-below 1000000000 n (ground arith) small) (omega arith, omega arith)
]

-- After an offset was received, `burn` sleeps for a time from 0 to a period, whatever overflows.
pub sleep_time-Within : (q offset : ℤ) → Within 0 1000000000 (sleep_time (adjusted q offset))
unfolding sleep_time adjusted
sleep_time-Within q offset = slept-Within (plus q offset) (plus-IsInt64 q offset)
