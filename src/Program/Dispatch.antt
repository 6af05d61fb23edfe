-- ===== src/Program/Dispatch.antt =====
-- The uid with which `main` of main.go runs an executor.
use chaosblade_exec_os.Prelude.{
  ◌≡◌, refl, String, none, Bool, true, false, ◌||◌, inl, inr, str_eq, Bool-cases,
}
use chaosblade_exec_os.Go.Strings.{is_empty}
use chaosblade_exec_os.Channel.{Env, Flags, flag, Trace, returned}
use chaosblade_exec_os.File.{Codec}
use chaosblade_exec_os.File.Append.{Chance, AppendArgs, backup_uid, back_up_if}
use chaosblade_exec_os.Program.{Words, context_of, exec_uid}

or_true : (b : Bool) → (b || true) ≡ true
or_true true = refl
or_true false = refl

no_backup_uid :
    (env : Env) (words : Words) (mode : String) (flags : Flags)
    → flag flags "uid" ≡ ""
    → backup_uid env (context_of words mode flags) ≡ none
unfolding context_of backup_uid is_empty
no_backup_uid env words mode flags no_uid =
    rw no_uid (rw (or_true (str_eq "" env.unknown_uid)) refl)

-- Where an experiment is created without a uid, one is generated for its executor, but the context
-- keeps the empty one: an append of a file then makes no backup, though it is enabled.
pub back_up_if-no_uid :
    (env : Env) (codec : Codec) (chance : Chance) (words : Words) (generated mode : String)
    (flags : Flags) (a : AppendArgs) (t : Trace)
    → str_eq mode words.destroy ≡ false
    → flag flags "uid" ≡ ""
    → (exec_uid words generated mode flags ≡ generated)
      × (back_up_if env codec chance (context_of words mode flags) a t ≡ returned none t)
unfolding exec_uid back_up_if
back_up_if-no_uid env codec chance words generated mode flags a t created no_uid = (
  rw (created, no_uid) refl,
  elim (Bool-cases a.enable_backup) [
    | inr disabled ↦ rw (disabled, back_up_if) refl
    | inl enabled ↦ rw (enabled, back_up_if) (rw (no_backup_uid env words mode flags no_uid) refl)
  ],
)
