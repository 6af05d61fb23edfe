-- ===== src/Memory/Load.antt =====
-- exec/mem/mem.go: `calculateMemSize`, the loops that fill the memory, `Exec`, `start` and `stop`.
use chaosblade_exec_os.Prelude.{
  ℕ, zero, suc, ◌+◌, ◌-◌, ◌*◌, ◌/◌, String, [], ◌∷◌, Option, none, some, true, false, not, ◌&&◌,
  str_eq, leb, ltb, if◌then◌else◌,
}
use chaosblade_exec_os.Prelude.Result.{Result, ok, err}
use chaosblade_exec_os.Go.Strings.{◌+s◌}
use chaosblade_exec_os.Go.Strconv.{ℤ, pos, negsuc, atoi, itoa, int_text}
use chaosblade_exec_os.Go.Int64.{minus, times, quotient, is_positive, less}
use chaosblade_exec_os.Go.Path.{join_path}
use chaosblade_exec_os.Channel.{
  Env, Response, Context, Flags, flag, flag_is_true, Trace, parameter_illegal, M, pure, returned,
  panicked, hung, ◌>>=◌, ◌>>◌, run_cmd, is_all_commands_available,
}
use chaosblade_exec_os.Exec.{destroy}
use chaosblade_exec_os.Memory.{Machine, Target, available_and_total}

-- Whole MiB of a size.
unfoldable pub in_mib : ℤ → ℤ
unfolding quotient
in_mib size = quotient (quotient size 1024) 1024

-- What is to be left of the available memory, in MiB: a share of the total, or `reserve` where the
-- percentage is 0.
unfoldable pub reserved : ℤ → ℤ → ℤ → ℤ
unfolding quotient times minus in_mib
reserved total (pos zero) reserve = reserve
reserved total percent reserve = in_mib (quotient (times total (minus (pos 100) percent)) 100)

-- What is yet to be filled, in MiB.
unfoldable pub expect_size : ℤ → ℤ → ℤ → ℤ → ℤ
unfolding minus in_mib reserved
expect_size total available percent reserve =
    minus (in_mib available) (reserved total percent reserve)

unfoldable pub calculate_mem_size : Machine → Target → ℤ → ℤ → Result String (ℤ × ℤ)
unfolding available_and_total in_mib expect_size
calculate_mem_size machine target percent reserve =
    elim (available_and_total machine target) as (λ x. Result String (ℤ × ℤ)) [
      | err e ↦ err e
      | ok (total, available) ↦ ok (in_mib total, expect_size total available percent reserve)
    ]

-- What the flags give: the percentage, the reserve and the rate.
pub record Amounts : Type 0 where
  pub percent : ℤ
  pub reserve : ℤ
  pub rate : ℤ

unfoldable pub positive_rate : ℤ → ℤ
unfolding is_positive
positive_rate rate = if is_positive rate then rate else pos 100

-- The MiB of one tick in the mode cache.
unfoldable pub cache_fill : ℤ → ℤ → ℤ
unfolding less
cache_fill rate expect = if less rate expect then rate else expect

-- The blocks of 128 KiB of one tick in the mode ram; below the rate a tenth is filled.
unfoldable pub ram_fill : ℤ → ℤ → ℤ
unfolding less quotient times
ram_fill rate expect = times (pos 8) (if less rate expect then rate else quotient expect 10)

abbrev pub dd_args : String → ℕ → ℤ → String
dd_args file number fill =
    "if=/dev/zero of=" +s file +s itoa number +s " bs=1M count=" +s int_text fill

-- The last buffer of blocks, and how many buffers there are.
pub record Buffers : Type 0 where
  pub count : ℕ
  pub length : ℕ
  pub capacity : ℕ

module _ (env : Env) (machine : ℕ → Trace → Machine) (target : Target) (amounts : Amounts) where
  -- The ticks of `burnMemWithCache`: how many are to come, how many have been, and the number of the
  -- next file. log.Fatalf, which ends the process, is `panicked`.
  unfoldable pub cache_ticks : String → ℕ → ℕ → ℕ → M ℕ
  unfolding calculate_mem_size is_positive
  cache_ticks file zero tick number t = returned number t
  cache_ticks file (suc ticks) tick number t =
      elim (calculate_mem_size (machine tick t) target amounts.percent amounts.reserve) [
        | err e ↦ panicked t
        | ok (total, expect) ↦
            elim (is_positive expect) as (λ b. M ℕ) [
              | false ↦ cache_ticks file ticks (suc tick) number
              | true ↦ do
                response ←
                    run_cmd env "dd"
                      (dd_args file number (cache_fill (positive_rate amounts.rate) expect))
                elim response.success as (λ b. M ℕ) [
                  | false ↦ λ t. panicked t
                  | true ↦ cache_ticks file ticks (suc tick) (suc number)
                ]
            ]
              t
      ]

  abbrev pub tmpfs_path : String
  tmpfs_path = join_path env.program_path "burnmem_tmpfs"

  unfoldable pub burn_mem_with_cache : ℕ → M ℕ
  unfolding cache_ticks join_path
  burn_mem_with_cache ticks = do
    run_cmd env "mkdir" ("-p " +s tmpfs_path)
    run_cmd env "mount" ("-t tmpfs -o size=100% chaos_burn " +s tmpfs_path)
    cache_ticks (join_path tmpfs_path "file") ticks 0 1

  -- One tick of the mode ram: `grow` is the capacity that `append` chooses for a length.
  unfoldable pub fill_buffers : (ℕ → ℕ → ℕ) → Buffers → ℤ → ℕ → Buffers
  unfolding less
  fill_buffers grow buffers expect blocks =
      if ltb (buffers.capacity - buffers.length) blocks
        && not (less (pos (buffers.capacity * 5 / 4)) (times (pos 8) expect))
      then record { count = buffers.count + 1; length = blocks; capacity = grow 0 blocks }
      else if leb (buffers.length + blocks) buffers.capacity
      then record {
        count = buffers.count;
        length = buffers.length + blocks;
        capacity = buffers.capacity;
      }
      else record {
        count = buffers.count;
        length = buffers.length + blocks;
        capacity = grow buffers.capacity (buffers.length + blocks);
      }

  unfoldable pub ram_tick : (ℕ → ℕ → ℕ) → Buffers → ℤ → Buffers
  unfolding is_positive ram_fill fill_buffers positive_rate
  ram_tick grow buffers expect =
      if is_positive expect
      then (elim (ram_fill (positive_rate amounts.rate) expect) as (λ b. Buffers) [
        | pos blocks ↦ if ltb 0 blocks then fill_buffers grow buffers expect blocks else buffers
        | negsuc n ↦ buffers
      ])
      else buffers

  unfoldable pub ram_ticks : (ℕ → ℕ → ℕ) → ℕ → ℕ → Buffers → M Buffers
  unfolding calculate_mem_size ram_tick
  ram_ticks grow zero tick buffers t = returned buffers t
  ram_ticks grow (suc ticks) tick buffers t =
      elim (calculate_mem_size (machine tick t) target amounts.percent amounts.reserve) [
        | err e ↦ panicked t
        | ok (total, expect) ↦ ram_ticks grow ticks (suc tick) (ram_tick grow buffers expect) t
      ]

  -- The filling, for a number of ticks; after the last it goes on.
  unfoldable pub mem_start : (ℕ → ℕ → ℕ) → ℕ → M Response
  unfolding burn_mem_with_cache ram_ticks
  mem_start grow ticks =
      if str_eq target.mode "cache"
      then burn_mem_with_cache ticks >> (λ t. hung t)
      else ram_ticks grow ticks 0 (record { count = 1; length = 0; capacity = 0 }) >> (λ t. hung t)

  unfoldable pub mem_stop : Context → M Response
  unfolding destroy join_path
  mem_stop ctx = do
    response ← destroy env ctx (some "chaos_burnmem") "mem load"
    run_cmd env "umount" "chaos_burn"
    run_cmd env "rm" ("-rf " +s tmpfs_path)
    pure response

module _ (env : Env) where
  abbrev pub illegal : String → String → String → Response
  illegal name value why = env.fail_with_flags parameter_illegal (name ∷ value ∷ why ∷ [])

  -- The percentage and the reserve.
  unfoldable pub mem_share : Flags → Result Response (ℤ × ℤ)
  unfolding flag atoi less
  mem_share flags =
      if not (str_eq (flag flags "mem-percent") "")
      then (elim (atoi (flag flags "mem-percent")) as (λ x. Result Response (ℤ × ℤ)) [
        | none ↦
            err (illegal "mem-percent" (flag flags "mem-percent") "it must be a positive integer")
        | some percent ↦
            if less (pos 100) percent
            then err (
                illegal "mem-percent" (flag flags "mem-percent")
                  "it must be a positive integer and not bigger than 100")
            else if less percent (pos 0)
            then err (
                illegal "mem-percent" (flag flags "mem-percent")
                  "it must be a positive integer and not bigger than 100")
            else ok (percent, pos 0)
      ])
      else if not (str_eq (flag flags "reserve") "")
      then (elim (atoi (flag flags "reserve")) as (λ x. Result Response (ℤ × ℤ)) [
        | none ↦
            err (illegal "reserve" (flag flags "reserve") (env.atoi_error (flag flags "reserve")))
        | some reserve ↦ ok (pos 0, reserve)
      ])
      else ok (pos 100, pos 0)

  unfoldable pub mem_amounts : Flags → Result Response Amounts
  unfolding mem_share flag atoi
  mem_amounts flags = elim (mem_share flags) as (λ x. Result Response Amounts) [
    | err response ↦ err response
    | ok (percent, reserve) ↦
        if str_eq (flag flags "rate") ""
        then ok (record { percent = percent; reserve = reserve; rate = pos 0 })
        else (elim (atoi (flag flags "rate")) as (λ x. Result Response Amounts) [
          | none ↦ err (illegal "rate" (flag flags "rate") "it must be a positive integer")
          | some rate ↦ ok (record { percent = percent; reserve = reserve; rate = rate })
        ])
  ]

  unfoldable pub mem_target : Option String → Flags → Target
  unfolding flag flag_is_true
  mem_target pid flags = record {
    mode = flag flags "mode";
    include_buffer_cache = flag_is_true flags "include-buffer-cache";
    pid = pid;
    cgroup_root = flag flags "cgroup-root";
  }

module _ (env : Env) (machine : ℕ → Trace → Machine) (grow : ℕ → ℕ → ℕ) where
  -- Exec; `pid` is the context's target process. What --avoid-being-killed writes to the process's
  -- file oom_adj is left out.
  unfoldable pub mem_exec : Context → Option String → Flags → ℕ → M Response
  unfolding mem_amounts mem_target mem_start mem_stop
  mem_exec ctx pid flags ticks = do
    missing ← is_all_commands_available env ("dd" ∷ "mount" ∷ "umount" ∷ [])
    elim missing as (λ x. M Response) [
      | some response ↦ pure response
      | none ↦ elim ctx.destroy as (λ x. M Response) [
        | true ↦
            mem_stop env machine (mem_target env pid flags)
              (record { percent = pos 0; reserve = pos 0; rate = pos 0 }) ctx
        | false ↦ elim (mem_amounts env flags) as (λ x. M Response) [
          | err response ↦ pure response
          | ok amounts ↦ mem_start env machine (mem_target env pid flags) amounts grow ticks
        ]
      ]
    ]
