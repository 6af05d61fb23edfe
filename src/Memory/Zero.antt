-- ===== src/Memory/Zero.antt =====
-- A percentage of 0 in `calculateMemSize` of exec/mem/mem.go.
use chaosblade_exec_os.Prelude.{◌+◌, ◌*◌, ◌≡◌, refl, arith, inl, inr}
use chaosblade_exec_os.Prelude.Result.{Result-cases}
use chaosblade_exec_os.Go.Strconv.{ℤ, pos, negsuc}
use chaosblade_exec_os.Go.Int64.{wrap, negated, minus, difference, times, quotient}
use chaosblade_exec_os.Memory.{Machine, Target, available_and_total}
use chaosblade_exec_os.Memory.Load.{in_mib, reserved, expect_size, calculate_mem_size}

times-zero : (total : ℤ) → times total (pos 0) ≡ pos 0
unfolding times wrap negated
times-zero (pos n) = let none : n * 0 ≡ 0 = omega arith in rw none refl
times-zero (negsuc n) = let none : (n + 1) * 0 ≡ 0 = omega arith in rw none refl

full_reserve : (total reserve : ℤ) → reserved total (pos 100) reserve ≡ pos 0
unfolding reserved minus difference wrap in_mib quotient
full_reserve total reserve = rw (times-zero total) refl

-- Where no reserve is given, a percentage of 0 is to fill as much as one of 100, for every target
-- and machine.
pub calculate_mem_size-zero_is_full :
    (machine : Machine) (target : Target) (reserve : ℤ)
    → calculate_mem_size machine target (pos 0) (pos 0)
      ≡ calculate_mem_size machine target (pos 100) reserve
unfolding calculate_mem_size expect_size reserved
calculate_mem_size-zero_is_full machine target reserve =
    elim (Result-cases (available_and_total machine target)) [
      | inl (e, fails) ↦ rw (fails, calculate_mem_size) refl
      | inr (sizes, works) ↦ rw (works, calculate_mem_size) (rw (full_reserve sizes.0 reserve) refl)
    ]
