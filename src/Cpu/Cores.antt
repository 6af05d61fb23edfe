-- ===== src/Cpu/Cores.antt =====
-- Which processes `start` of exec/cpu/cpu.go starts for a list of processors.
use chaosblade_exec_os.Prelude.{◌≡◌, String, List, [], ◌∷◌, ◌++◌, map, false, ◌⊎◌}
use chaosblade_exec_os.Channel.{Env, Response, Context, Call, spawn, Trace}
use chaosblade_exec_os.Cpu.{Load, core_line, uid_response}

-- A trace with the calls on top of it, in the order in which they were made.
abbrev pub after : List Call → Trace → Trace
after [] t = t
after (c ∷ calls) t = after calls (c ∷ t)

module _ (env : Env) (ctx : Context) (load : Load) where
  abbrev pub lines : List String → List Call
  lines cores = map (λ core. spawn (core_line env ctx load core)) cores

  -- All were started, or the processes up to one that could not be started.
  abbrev pub Started : List String → Trace → Response → Trace → Type 0
  Started cores t r t' =
      ((r ≡ uid_response env ctx) × (t' ≡ after (lines cores) t))
      ⊎ ((front : List String) × ((core : String) × ((rest : List String) × ((cores
                  ≡ front ++ (core ∷ rest))
                × ((r.success ≡ false)
                    × (t' ≡ spawn (core_line env ctx load core) ∷ after (lines front) t))))))
