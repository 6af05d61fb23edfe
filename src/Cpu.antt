-- ===== src/Cpu.antt =====
-- exec/cpu: the checks of `Exec`, `start`, `slope`, `getQuota`, `burn` and `stop` of cpu.go, and the
-- reading of cpu.stat in cpu_linux.go.
pub mod Bounds
pub mod Cores
use chaosblade_exec_os.Prelude.{
  ℕ, zero, suc, ◌≡◌, refl, String, List, [], ◌∷◌, Option, none, some, Bool, true, false, not, ◌||◌,
  str_eq, if◌then◌else◌,
}
use chaosblade_exec_os.Prelude.Result.{Result, ok, err}
use chaosblade_exec_os.Go.Strings.{◌+s◌, join, split_text, trim_space, fields}
use chaosblade_exec_os.Go.Strconv.{ℤ, pos, negsuc, atoi, int_text}
use chaosblade_exec_os.Go.Int64.{plus, minus, is_positive, less}
use chaosblade_exec_os.Go.Floats.{Floats}
use chaosblade_exec_os.Channel.{
  Env, Response, Context, Flags, flag, parameter_illegal, os_cmd_exec_failed,
  command_taskset_not_found, M, pure, returned, hung, ◌>>=◌, is_command_available, start_process,
}
use chaosblade_exec_os.Exec.{destroy}

-- What is read of the machine: runtime.NumCPU, the count and the error of automaxprocs'
-- GetCPUCntByPid, whether the channel is that of nsexec, whose target is a flag, and
-- ParseIntegerListToStringSlice of package util.
pub record Cpus : Type 0 where
  pub num_cpu : ℕ
  pub is_ns_exec : Bool
  pub cpu_count_by_pid : String → String → ℤ × Option String
  pub ns_target_flag : String
  pub parse_integer_list : String → Result String (List String)

-- The arguments of `start`.
pub record Load : Type 0 where
  pub cpu_list : String
  pub cpu_count : ℤ
  pub cpu_percent : ℤ
  pub climb_time : ℤ
  pub cpu_index : String

module _ (env : Env) where
  abbrev pub illegal : String → String → String → Response
  illegal name value why = env.fail_with_flags parameter_illegal (name ∷ value ∷ why ∷ [])

  -- A flag that is to be from 0 to a bound, with its default.
  unfoldable pub bounded_flag : Flags → String → ℕ → ℤ → String → String → Result Response ℤ
  unfolding flag atoi less
  bounded_flag flags name bound default no_number too_big =
      if str_eq (flag flags name) ""
      then ok default
      else (elim (atoi (flag flags name)) as (λ x. Result Response ℤ) [
        | none ↦ err (illegal name (flag flags name) no_number)
        | some n ↦
            if less (pos bound) n || less n (pos 0)
            then err (illegal name (flag flags name) too_big)
            else ok n
      ])

  unfoldable pub cpu_percent_of : Flags → Result Response ℤ
  unfolding bounded_flag
  cpu_percent_of flags =
      bounded_flag flags "cpu-percent" 100 (pos 100) "it must be a positive integer"
        "it must be a positive integer and not bigger than 100"

  unfoldable pub climb_time_of : Flags → Result Response ℤ
  unfolding bounded_flag
  climb_time_of flags =
      bounded_flag flags "climb-time" 600 (pos 0) "it must be a positive integer"
        "must be a positive integer and not bigger than 600"

  module _ (cpus : Cpus) where
    -- tmpCpuCnt; the error of GetCPUCntByPid is only logged.
    unfoldable pub available_cpus : Flags → ℤ
    unfolding flag
    available_cpus flags =
        if cpus.is_ns_exec
        then (cpus.cpu_count_by_pid (flag flags "cgroup-root") (flag flags cpus.ns_target_flag)).0
        else pos cpus.num_cpu

    -- A count that is not from 1 to the number of processors is that number.
    unfoldable pub limited_count : ℤ → ℤ → ℤ
    unfolding is_positive less
    limited_count available count =
        if not (is_positive count) || less available count then available else count

    unfoldable pub cpu_count_of : Flags → Result Response ℤ
    unfolding flag atoi limited_count available_cpus
    cpu_count_of flags =
        if str_eq (flag flags "cpu-count") ""
        then ok (limited_count (available_cpus flags) (pos 0))
        else (elim (atoi (flag flags "cpu-count")) as (λ x. Result Response ℤ) [
          | none ↦
              err (illegal "cpu-count" (flag flags "cpu-count") "it must be a positive integer")
          | some n ↦ ok (limited_count (available_cpus flags) n)
        ])

    -- The list, which needs `taskset`, or the count.
    unfoldable pub cpu_list_and_count : Flags → M (Result Response (String × ℤ))
    unfolding flag cpu_count_of join
    cpu_list_and_count flags =
        elim (str_eq (flag flags "cpu-list") "") as (λ x. M (Result Response (String × ℤ))) [
          | true ↦ pure (elim (cpu_count_of flags) as (λ x. Result Response (String × ℤ)) [
            | err response ↦ err response
            | ok count ↦ ok ("", count)
          ])
          | false ↦ do
            found ← is_command_available env "taskset"
            pure (
                if found
                then (elim (cpus.parse_integer_list (flag flags "cpu-list"))
                    as (λ x. Result Response (String × ℤ)) [
                      | err e ↦ err (illegal "cpu-list" (flag flags "cpu-list") e)
                      | ok cores ↦ ok (join cores ",", pos 0)
                    ])
                else err (env.fail_with_flags command_taskset_not_found []))
        ]

    -- Exec up to the call of `start`.
    unfoldable pub cpu_load : Flags → M (Result Response Load)
    unfolding cpu_percent_of cpu_list_and_count climb_time_of flag
    cpu_load flags = elim (cpu_percent_of flags) as (λ x. M (Result Response Load)) [
      | err response ↦ pure (err response)
      | ok percent ↦ do
        cores ← cpu_list_and_count flags
        pure (elim cores as (λ x. Result Response Load) [
          | err response ↦ err response
          | ok (list, count) ↦ elim (climb_time_of flags) as (λ x. Result Response Load) [
            | err response ↦ err response
            | ok climb_time ↦ ok (record {
              cpu_list = list;
              cpu_count = count;
              cpu_percent = percent;
              climb_time = climb_time;
              cpu_index = flag flags "cpu-index";
            })
          ]
        ])
    ]

  -- ctx.Value(spec.Uid), as a text and as a result
  abbrev pub uid_text : Context → String
  uid_text ctx = elim ctx.uid [ none ↦ "%!s(<nil>)" | some uid ↦ uid ]

  abbrev pub uid_response : Context → Response
  uid_response ctx = elim ctx.uid [
    | none ↦ record { success = true; err = ""; result = none }
    | some uid ↦ env.return_success uid
  ]

  -- The command line for one processor.
  unfoldable pub core_line : Context → Load → String → String
  unfolding int_text
  core_line ctx load core =
      "taskset -c "
      +s core
      +s " "
      +s env.program_name
      +s " create cpu fullload --cpu-count 1 --cpu-percent "
      +s int_text load.cpu_percent
      +s " --climb-time "
      +s int_text load.climb_time
      +s " --cpu-index "
      +s core
      +s " --uid "
      +s uid_text ctx

  -- One process for each processor, up to the first that cannot be started.
  unfoldable pub start_cores : Context → Load → List String → M Response
  unfolding core_line
  start_cores ctx load [] = pure (uid_response ctx)
  start_cores ctx load (core ∷ rest) = do
    failed ← start_process env (core_line ctx load core)
    elim failed as (λ x. M Response) [
      | some e ↦ pure (env.return_fail os_cmd_exec_failed ("taskset exec failed, " +s e))
      | none ↦ start_cores ctx load rest
    ]

  -- Without a list the burning never returns.
  unfoldable pub cpu_start : Cpus → Context → Load → M Response
  unfolding start_cores atoi
  cpu_start cpus ctx load =
      if not (str_eq load.cpu_list "")
      then (elim (cpus.parse_integer_list load.cpu_list) as (λ x. M Response) [
        | err e ↦ pure (illegal "cpu-list" load.cpu_list e)
        | ok cores ↦ start_cores ctx load cores
      ])
      else if str_eq load.cpu_index ""
      then (λ t. hung t)
      else (elim (atoi load.cpu_index) as (λ x. M Response) [
        | none ↦ pure (illegal "cpu-index" load.cpu_index "it must be a positive integer")
        | some n ↦ λ t. hung t
      ])

  -- The channel is there.
  unfoldable pub cpu_exec : Cpus → Context → Flags → M Response
  unfolding cpu_load cpu_start destroy
  cpu_exec cpus ctx flags = elim ctx.destroy as (λ x. M Response) [
    | true ↦ destroy env ctx (some "chaos_burncpu") "cpu fullload"
    | false ↦ do
      load ← cpu_load cpus flags
      elim load as (λ x. M Response) [ err response ↦ pure response | ok l ↦ cpu_start cpus ctx l ]
  ]

-- In nanoseconds
abbrev pub period : ℤ
period = pos 1000000000

unfoldable pub at_least_zero : ℤ → ℤ
at_least_zero (pos n) = pos n
at_least_zero (negsuc n) = pos 0

-- How long `burn` sleeps where it is busy for `q`.
unfoldable pub sleep_time : ℤ → ℤ
unfolding minus at_least_zero
sleep_time q = at_least_zero (minus period q)

-- The time that `burn` is busy, after an offset was received.
unfoldable pub adjusted : ℤ → ℤ → ℤ
unfolding plus at_least_zero
adjusted q offset = at_least_zero (plus q offset)

module _ (floats : Floats) where
  -- getQuota, for the share of the processor in use
  unfoldable pub get_quota : floats.Float → floats.Float → ℤ
  get_quota slope_percent used = floats.to_int64 (
      floats.times (floats.divided_by (floats.minus slope_percent used) (floats.of_int (pos 100)))
        (floats.of_int period))

  -- A tick of `slope`.
  unfoldable pub slope_tick : ℤ → ℤ → floats.Float → floats.Float → floats.Float
  slope_tick cpu_percent climb_time start_percent slope_percent =
      let goal = floats.of_int cpu_percent in
      let step = floats.divided_by start_percent (floats.of_int climb_time) in
      if floats.less slope_percent goal
      then floats.plus slope_percent step
      else if floats.less goal slope_percent
      then floats.minus slope_percent step
      else slope_percent

-- The counters of cpu.stat.
pub record CpuStat : Type 0 where
  pub usage_usec : ℤ
  pub user_usec : ℤ
  pub system_usec : ℤ

unfoldable pub cpu_stat_line : CpuStat → String → CpuStat
unfolding trim_space fields atoi
cpu_stat_line stat line = elim (fields (trim_space line)) as (λ x. CpuStat) [
  | [] ↦ stat
  | name ∷ [] ↦ stat
  | name ∷ text ∷ more ∷ rest ↦ stat
  | name ∷ text ∷ [] ↦ elim (atoi text) as (λ x. CpuStat) [
    | none ↦ stat
    | some value ↦
        if str_eq name "usage_usec"
        then record {
          usage_usec = value;
          user_usec = stat.user_usec;
          system_usec = stat.system_usec;
        }
        else if str_eq name "user_usec"
        then record {
          usage_usec = stat.usage_usec;
          user_usec = value;
          system_usec = stat.system_usec;
        }
        else if str_eq name "system_usec"
        then record {
          usage_usec = stat.usage_usec;
          user_usec = stat.user_usec;
          system_usec = value;
        }
        else stat
  ]
]

unfoldable pub cpu_stat_lines : List String → CpuStat → CpuStat
unfolding cpu_stat_line
cpu_stat_lines [] stat = stat
cpu_stat_lines (line ∷ rest) stat = cpu_stat_lines rest (cpu_stat_line stat line)

-- The microseconds that a cpu.stat tells.
unfoldable pub cpu_time : String → ℤ
unfolding cpu_stat_lines split_text plus
cpu_time content =
    let stat =
      cpu_stat_lines (split_text "\n" content)
        (record { usage_usec = pos 0; user_usec = pos 0; system_usec = pos 0 }) in
    elim stat.usage_usec as (λ x. ℤ) [
      | pos zero ↦ plus stat.user_usec stat.system_usec
      | pos (suc n) ↦ pos (suc n)
      | negsuc n ↦ negsuc n
    ]

-- getCGroupV2CPUUsage, for the contents of cpu.stat before and after a second
unfoldable pub cgroup_v2_cpu_usage : (floats : Floats) → String → String → ℤ → floats.Float
unfolding cpu_time minus
cgroup_v2_cpu_usage floats first second cpu_count =
    let seconds =
      floats.divided_by (floats.of_int (minus (cpu_time second) (cpu_time first)))
        (floats.of_int (pos 1000000)) in
    floats.divided_by (floats.times seconds (floats.of_int (pos 100))) (floats.of_int cpu_count)

stat_total : cpu_time "user_usec 3\nusage_usec 12\nnr_periods 0\n" ≡ pos 12
unfolding cpu_time
stat_total = refl

stat_sum : cpu_time "user_usec 3\nsystem_usec 4" ≡ pos 7
unfolding cpu_time
stat_sum = refl
