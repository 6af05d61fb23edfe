-- ===== src/Memory/Reserve.antt =====
-- What the mode cache of exec/mem/mem.go leaves of the memory of a system.
use native.Mathlib.Nat.{mul-le-mul_left}
use chaosblade_exec_os.Prelude.{
  ◌∷◌, ℕ, zero, suc, ◌+◌, ◌-◌, ◌*◌, ◌/◌, ◌^◌, ◌≤◌, ◌<◌, ◌≡◌, refl, sym, ◌∙◌, ap, String, none, true,
  false, ltb, ltb→lt, ◌⊎◌, inl, inr, arith, Bool-cases,
}
use mathlib.Core.Path.{subst}
use chaosblade_exec_os.Prelude.Result.{ok}
use chaosblade_exec_os.Go.Strconv.{ℤ, pos}
use chaosblade_exec_os.Go.Int64.{
  int64, wrap-small, minus, minus-small, times, quotient, is_positive, less,
}
use chaosblade_exec_os.Channel.{Env, run, Trace}
use chaosblade_exec_os.Channel.Laws.{Returns}
use chaosblade_exec_os.Memory.{
  Machine, Target, counts_cache, sizes_of, system_memory, available_and_total,
}
use chaosblade_exec_os.Memory.Load.{
  Amounts, in_mib, reserved, expect_size, calculate_mem_size, positive_rate, cache_fill, dd_args,
  cache_ticks,
}

-- MiB
abbrev pub mib : ℕ → ℕ
mib size = size / 1024 / 1024

-- The MiB that a percentage leaves of a total.
abbrev pub left_over : ℕ → ℕ → ℕ
left_over total percent = mib (total * (100 - percent) / 100)

times-small : (m n : ℕ) → m * n < 2 ^ 63 → times (pos m) (pos n) ≡ pos (m * n)
unfolding times
times-small m n small = wrap-small (m * n) small

share-small : (total n : ℕ) → total < 2 ^ 56 → n ≤ 100 → total * n < 2 ^ 63
share-small total n small few = omega (arith, mul-le-mul_left total few)

reserved-share :
    (total percent : ℕ) (reserve : ℤ)
    → suc percent ≤ 100
    → total < 2 ^ 56
    → reserved (pos total) (pos (suc percent)) reserve ≡ pos (left_over total (suc percent))
unfolding reserved in_mib quotient
reserved-share total percent reserve few small =
    rw (minus-small 100 (suc percent) few (omega arith))
      (rw (times-small total (100 - suc percent) (share-small total _ small (omega arith))) refl)

-- A system whose free memory is read at each tick, and on which `dd` succeeds and takes what it is
-- asked for of the free memory: `rate` and `rest` say what the next tick asks for.
pub record Filling (env : Env) (machine : ℕ → Trace → Machine) (file : String) (total rest : ℕ)
    (rate : ℤ) : Type 0 where
  pub free : Trace → ℕ
  pub buffers : ℕ
  pub cached : ℕ
  pub total_small : total < 2 ^ 56
  pub free_below : (t : Trace) → free t ≤ total
  pub reads :
      (tick : ℕ) (t : Trace)
      → (machine tick t).virtual_memory
        ≡ ok (record { total = total; free = free t; buffers = buffers; cached = cached })
  pub succeeds : (t : Trace) (args : String) → (env.answer t "dd" args).success ≡ true
  pub takes :
      (t : Trace) (number k : ℕ)
      → rest < mib (free t)
      → cache_fill rate (pos (mib (free t) - rest)) ≡ pos k
      → free (run "dd" (dd_args file number (pos k)) ∷ t) + k * 1048576 ≡ free t

module _ (env : Env) (machine : ℕ → Trace → Machine) (target : Target) (amounts : Amounts)
    (percent total rate : ℕ) (file : String)
    (filling : Filling env machine file total (left_over total (suc percent)) (pos (suc rate)))
    (no_target : target.pid ≡ none) (mode : counts_cache target ≡ false)
    (asked : amounts.percent ≡ pos (suc percent)) (few : suc percent ≤ 100)
    (at_rate : positive_rate amounts.rate ≡ pos (suc rate)) where
  abbrev rest : ℕ
  rest = left_over total (suc percent)

  abbrev left : Trace → ℕ
  left t = mib (filling.free t)

  calculated :
      (tick : ℕ) (t : Trace)
      → calculate_mem_size (machine tick t) target amounts.percent amounts.reserve
        ≡ ok (in_mib (pos total), minus (pos (left t)) (pos rest))
  unfolding calculate_mem_size available_and_total system_memory sizes_of int64 expect_size in_mib
      quotient
  calculated tick t =
      rw (no_target, filling.reads tick t)
        (rw (mode, asked)
          (rw
            (
              wrap-small total (omega (arith, filling.total_small)),
              wrap-small (filling.free t)
                  (omega (arith, filling.total_small, filling.free_below t)),
            )
            (rw (reserved-share total percent amounts.reserve few filling.total_small) refl)))

  -- What a tick asks of `dd`: what is to be filled, or the rate.
  filled :
      (d : ℕ)
      → (k : ℕ) × (cache_fill (pos (suc rate)) (pos (suc d)) ≡ pos k)
        × ((k ≤ suc d) × ((k ≡ suc d) ⊎ (k ≡ suc rate)))
  unfolding cache_fill less
  filled d = elim (Bool-cases (ltb (suc rate) (suc d))) [
    | inl more ↦ (suc rate, rw more refl, (omega (arith, ltb→lt _ _ more), inr refl))
    | inr fits ↦ (suc d, rw fits refl, (ground arith, inl refl))
  ]

  difference : (t : Trace) → rest ≤ left t → minus (pos (left t)) (pos rest) ≡ pos (left t - rest)
  difference t enough =
      minus-small (left t) rest enough (omega (arith, filling.total_small, filling.free_below t))

  expects :
      (tick d : ℕ) (t : Trace)
      → rest ≤ left t
      → left t - rest ≡ d
      → calculate_mem_size (machine tick t) target amounts.percent amounts.reserve
        ≡ ok (in_mib (pos total), pos d)
  expects tick d t enough is =
      calculated tick t ∙ ap (λ z. ok (in_mib (pos total), z)) (difference t enough ∙ ap pos is)

  -- A tick that finds nothing to fill makes no call.
  idle :
      (ticks tick number : ℕ) (t : Trace)
      → left t ≡ rest
      → cache_ticks env machine target amounts file (suc ticks) tick number t
        ≡ cache_ticks env machine target amounts file ticks (suc tick) number t
  unfolding cache_ticks is_positive
  idle ticks tick number t none_left =
      rw (expects tick 0 t (omega arith) (omega arith), cache_ticks) refl

  -- A tick that finds something to fill makes one call, which fills it or as much as the rate.
  fills :
      (ticks tick number d : ℕ) (t : Trace)
      → left t - rest ≡ suc d
      → (k : ℕ) × ((k ≡ suc d) ⊎ (k ≡ suc rate))
        × ((left (run "dd" (dd_args file number (pos k)) ∷ t) + k ≡ left t)
            × ((k ≤ suc d)
                × (cache_ticks env machine target amounts file (suc ticks) tick number t
                    ≡ cache_ticks env machine target amounts file ticks
                        (suc tick)
                        (suc number)
                        (run "dd" (dd_args file number (pos k)) ∷ t))))
  unfolding cache_ticks is_positive
  fills ticks tick number d t some_left =
      let (k, asks, (fits, which)) = filled d in
      let taken = filling.takes t number k (omega arith) (rw some_left asks) in
      (
        k,
        which,
        (
          omega arith,
          (
            fits,
            rw (expects tick (suc d) t (omega arith) some_left, cache_ticks)
                (rw (at_rate, asks) (rw (filling.succeeds t _) refl)),
          ),
        ),
      )

  -- On a system whose free memory is at least what a percentage from 1 to 100 leaves of the total,
  -- and on which `dd` takes what it is asked for of the free memory, the loop of the mode cache
  -- returns once its ticks at the rate suffice for the difference, and exactly what the percentage
  -- leaves is then free, in whole MiB.
  pub cache_ticks-reaches_reserve :
      (ticks tick number : ℕ) (t : Trace)
      → rest ≤ left t
      → left t ≤ rest + ticks * suc rate
      → Returns
          (λ n t'. left t' ≡ rest)
          (cache_ticks env machine target amounts file ticks tick number t)
  unfolding cache_ticks
  cache_ticks-reaches_reserve zero tick number t enough soon = omega arith
  cache_ticks-reaches_reserve (suc ticks) tick number t enough soon =
      reached (left t - rest) refl λ tick' number' t' enough' soon'.
        cache_ticks-reaches_reserve ticks tick' number' t' enough' soon'
    where
      reached :
          (d : ℕ)
          → left t - rest ≡ d
          → ((tick' number' : ℕ) (t' : Trace)
              → rest ≤ left t'
              → left t' ≤ rest + ticks * suc rate
              → Returns
                  (λ n t''. left t'' ≡ rest)
                  (cache_ticks env machine target amounts file ticks tick' number' t'))
          → Returns
              (λ n t'. left t' ≡ rest)
              (cache_ticks env machine target amounts file (suc ticks) tick number t)
      reached zero is later =
          subst (Returns (λ n t'. left t' ≡ rest)) (sym (idle ticks tick number t (omega arith)))
            (later (suc tick) number t enough (omega arith))
      reached (suc d) is later =
          let (k, which, (taken, (fits, same))) = fills ticks tick number d t is in
          subst (Returns (λ n t'. left t' ≡ rest)) (sym same) (
            later (suc tick) (suc number) (run "dd" (dd_args file number (pos k)) ∷ t) (omega arith)
              (elim which [ inl all ↦ omega arith | inr rated ↦ omega arith ]))
