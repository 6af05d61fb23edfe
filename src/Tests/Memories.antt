-- ===== src/Tests/Memories.antt =====
-- A system of 100 MiB whose free memory `dd` takes.
use mathlib.Core.Path.{subst}
use chaosblade_exec_os.Prelude.{
  ap, ◌<◌, ℕ, ◌+◌, ◌-◌, ◌*◌, ◌≤◌, ◌≡◌, refl, [], ◌∷◌, none, Bool, true, false, ltb, arith,
  if◌then◌else◌, ltb→lt,
}
use chaosblade_exec_os.Prelude.Result.{ok, err}
use chaosblade_exec_os.Go.Strconv.{ℤ, pos, negsuc}
use chaosblade_exec_os.Go.Int64.{less, is_positive}
use chaosblade_exec_os.Channel.{Trace}
use chaosblade_exec_os.Channel.Laws.{Returns}
use chaosblade_exec_os.Memory.{Machine, Target, counts_cache}
use chaosblade_exec_os.Memory.Load.{
  Amounts, calculate_mem_size, positive_rate, cache_fill, cache_ticks,
}
use chaosblade_exec_os.Memory.Reserve.{Filling, mib, cache_ticks-reaches_reserve}
use chaosblade_exec_os.Memory.Zero.{calculate_mem_size-zero_is_full}
use chaosblade_exec_os.Tests.Channels.{good_channel}

-- The free MiB after some calls: each takes 10, but leaves 60.
abbrev free_mib : Trace → ℕ
free_mib [] = 100
free_mib (c ∷ t) = let n = free_mib t in if ltb 10 (n - 60) then n - 10 else 60

abbrev machine : ℕ → Trace → Machine
machine tick t = record {
  virtual_memory =
      ok (record { total = 104857600; free = free_mib t * 1048576; buffers = 0; cached = 0 });
  load_error = λ root pid. none;
  stat = λ root pid. ok none;
  is_cgroup_v2 = λ root. false;
  find_cgroup_v2_path = λ pid root. ok "";
  memory_limit = λ path. ok (pos 0, false);
  read_file = λ path. err "";
  atoi_error = λ s. "invalid syntax";
}

free_mib-small : (t : Trace) → free_mib t ≤ 100
free_mib-small [] = omega arith
free_mib-small (c ∷ t) = let small = free_mib-small t in ground arith

abbrev amount : ℤ → ℕ
amount (pos n) = n
amount (negsuc n) = 0

takes_if :
    (b : Bool) (n k : ℕ)
    → ltb 10 (n - 60) ≡ b
    → 60 ≤ n
    → (if b then pos 10 else pos (n - 60)) ≡ pos k
    → (if b then n - 10 else 60) * 1048576 + k * 1048576 ≡ n * 1048576
takes_if true n k more enough asks =
    let asked : 10 ≡ k = ap amount asks in omega (arith, ltb→lt _ _ more)
takes_if false n k fits enough asks = let asked : n - 60 ≡ k = ap amount asks in omega arith

takes :
    (n k : ℕ)
    → 60 ≤ n
    → cache_fill (pos 10) (pos (n - 60)) ≡ pos k
    → (if ltb 10 (n - 60) then n - 10 else 60) * 1048576 + k * 1048576 ≡ n * 1048576
unfolding cache_fill less
takes n k enough asks = takes_if (ltb 10 (n - 60)) n k refl enough asks

mib_of : (n : ℕ) → mib (n * 1048576) ≡ n
mib_of n = omega arith

takes_free :
    (n k : ℕ)
    → 60 < mib (n * 1048576)
    → cache_fill (pos 10) (pos (mib (n * 1048576) - 60)) ≡ pos k
    → (if ltb 10 (n - 60) then n - 10 else 60) * 1048576 + k * 1048576 ≡ n * 1048576
takes_free n k enough asks =
    takes n k (omega arith)
      (subst (λ m. cache_fill (pos 10) (pos (m - 60)) ≡ pos k) (mib_of n) asks)

abbrev target : Target
target = record { mode = "cache"; include_buffer_cache = false; pid = none; cgroup_root = "" }

abbrev amounts : Amounts
amounts = record { percent = pos 40; reserve = pos 0; rate = pos 10 }

abbrev filling : Filling good_channel machine "file" 104857600 60 (pos 10)
filling = record {
  free = λ t. free_mib t * 1048576;
  buffers = 0;
  cached = 0;
  total_small = omega arith;
  free_below = λ t. omega (arith, free_mib-small t);
  reads = λ tick t. refl;
  succeeds = λ t args. refl;
  takes = λ t number k enough asks. takes_free (free_mib t) k enough asks;
}

no_cache : counts_cache target ≡ false
unfolding counts_cache
no_cache = refl

at_ten : positive_rate (pos 10) ≡ pos 10
unfolding positive_rate is_positive
at_ten = refl

reaches_reserve_example :
    Returns
      (λ n t'. mib (filling.free t') ≡ 60)
      (cache_ticks good_channel machine target amounts "file" 5 0 1 [])
reaches_reserve_example =
    cache_ticks-reaches_reserve good_channel machine target amounts 39 104857600 9 "file" filling
      refl no_cache refl (omega arith) at_ten 5 0 1 [] (omega arith) (omega arith)

zero_is_full_example :
    calculate_mem_size (machine 0 []) target (pos 0) (pos 0)
    ≡ calculate_mem_size (machine 0 []) target (pos 100) (pos 7)
zero_is_full_example = calculate_mem_size-zero_is_full (machine 0 []) target (pos 7)
