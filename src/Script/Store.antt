-- ===== src/Script/Store.antt =====
-- The files that the script experiments work on: what `[ -e`, `cat`, `sed`, `awk` and `rm` do to a
-- script and to its backup, as a law for each command.
use chaosblade_exec_os.Prelude.{◌≡◌, String, Option, some, true, ◌∷◌}
use chaosblade_exec_os.Go.Strings.{◌+s◌, contains}
use chaosblade_exec_os.Channel.{Env, run, Trace}
use chaosblade_exec_os.Script.{get_back_file, copy_args}

-- The command of CheckFilepathExists.
abbrev pub exists_cmd : String → String
exists_cmd path = "[ -e " +s path +s " ] && echo true || echo false"

-- The content of the script and of its backup after some calls, `none` where there is no file.
pub record Store (env : Env) (script : String) : Type 0 where
  pub content : Trace → Option String
  pub backup : Trace → Option String
  -- `[ -e` changes nothing, and says whether a backup exists
  pub exists_content : (t : Trace) (p : String) → content (run (exists_cmd p) "" ∷ t) ≡ content t
  pub exists_backup : (t : Trace) (p : String) → backup (run (exists_cmd p) "" ∷ t) ≡ backup t
  pub reports :
      (t : Trace) (s : String)
      → backup t ≡ some s
      → ((env.answer t (exists_cmd (get_back_file script)) "").success ≡ true)
        × ((text : String) × ((env.answer t (exists_cmd (get_back_file script)) "").result
              ≡ some text)
            × (contains text "true" ≡ true))
  -- a copy to the backup leaves the script, and one that succeeds makes a backup of it
  pub copy_content :
      (t : Trace) → content (run "cat" (copy_args script (get_back_file script)) ∷ t) ≡ content t
  pub copy_backup :
      (t : Trace)
      → (env.answer t "cat" (copy_args script (get_back_file script))).success ≡ true
      → (s : String) × (content t ≡ some s)
        × (backup (run "cat" (copy_args script (get_back_file script)) ∷ t) ≡ some s)
  -- a copy back that succeeds restores the script
  pub restore_content :
      (t : Trace)
      → (env.answer t "cat" (copy_args (get_back_file script) script)).success ≡ true
      → content (run "cat" (copy_args (get_back_file script) script) ∷ t) ≡ backup t
  -- `awk` and `sed` leave the backup
  pub awk_backup : (t : Trace) (args : String) → backup (run "awk" args ∷ t) ≡ backup t
  pub sed_backup : (t : Trace) (args : String) → backup (run "sed" args ∷ t) ≡ backup t
  -- `rm` of the backup leaves the script
  pub rm_content : (t : Trace) → content (run "rm" ("-rf " +s get_back_file script) ∷ t) ≡ content t
