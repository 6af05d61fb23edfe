-- ===== src/Process/Load/Spawned.antt =====
-- How many processes exec/process/process_load.go starts.
use chaosblade_exec_os.Prelude.{ℕ, zero, suc, ◌≡◌, refl, String, ◌∷◌, true}
use chaosblade_exec_os.Channel.{Env, Context, spawn, Trace, returned}
use chaosblade_exec_os.Process.Load.{
  ping_line, bash_line, simple_proc, simple_procs, uid_success, load_start,
}

-- A number of starts of a command line on top of a trace.
abbrev pub spawned : ℕ → String → Trace → Trace
spawned zero line t = t
spawned (suc count) line t = spawned count line (spawn (bash_line line) ∷ t)

module _ (env : Env) where
  simple_procs-spawned :
      (count : ℕ) (line : String) (t : Trace)
      → simple_procs env count line t ≡ returned true (spawned count line t)
  unfolding simple_procs simple_proc
  simple_procs-spawned zero line t = refl
  simple_procs-spawned (suc count) line t =
      simple_procs-spawned count line (spawn (bash_line line) ∷ t)

  -- With a positive count the start returns the uid after exactly as many pings were started,
  -- whether or not they could be.
  pub load_start-spawned :
      (ctx : Context) (count : ℕ) (user : String) (rounds : ℕ) (t : Trace)
      → load_start env ctx (suc count) user rounds t
        ≡ returned (uid_success env ctx) (spawned (suc count) (ping_line user) t)
  unfolding load_start
  load_start-spawned ctx count user rounds t =
      rw (simple_procs-spawned (suc count) (ping_line user) t) refl
