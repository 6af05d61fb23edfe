-- ===== src/Tests/Scripts.antt =====
-- A script with a backup that is made and removed by the commands.
use Prim.Native.String.append
use Prim.Native.String.{[], ◌∷◌}
use mathlib.Core.List.{[], ◌∷◌}
use chaosblade_exec_os.Prelude.{
  ℕ, ◌≡◌, refl, ◌==◌, code, ap, sym, String, Option, none, some, Bool, true, false, str_eq,
  if◌then◌else◌, Bool-cases, inl, inr, arith,
}
use chaosblade_exec_os.Go.Strings.{◌+s◌, contains}
use chaosblade_exec_os.Channel.{Env, Response, run, Trace}
use chaosblade_exec_os.Channel.Laws.{Returns, AnswersTexts}
use chaosblade_exec_os.Script.{get_back_file, copy_args, recover_script, start_with_content}
use chaosblade_exec_os.Script.Store.{Store, exists_cmd}
use chaosblade_exec_os.Script.Recovery.{start_with_content-Kept}
use chaosblade_exec_os.Tests.Channels.{channel, succeed, failure}

abbrev pub starts : ℕ → String → Bool
starts k [] = false
starts k (c ∷ s) = code c == k

-- `cat` makes the backup, `rm` removes it.
abbrev has_backup : Trace → Bool
has_backup [] = false
has_backup (run script args ∷ t) =
    if starts b'c' script then true else if starts b'r' script then false else has_backup t
has_backup (_ ∷ t) = has_backup t

abbrev backup_of : Trace → Option String
backup_of t = if has_backup t then some "exit 0" else none

abbrev check_text : Trace → String
check_text t = if has_backup t then "true" else "12"

abbrev answers : Trace → String → String → Response
answers t script args =
    if starts b'c' script
    then (if str_eq args (copy_args "t.sh" (get_back_file "t.sh"))
        then succeed ""
        else if has_backup t
        then succeed ""
        else failure)
    else succeed (check_text t)

abbrev script_channel : Env
script_channel = channel answers

pub check_starts : (k : ℕ) (p : String) → starts k (exists_cmd p) ≡ (91 == k)
check_starts k p = rw (append.cons "[" " -e " (p +s " ] && echo true || echo false")) refl

script_channel-AnswersTexts : AnswersTexts script_channel
script_channel-AnswersTexts t script args good = elim (Bool-cases (starts b'c' script)) [
  | inl is_cat ↦ ("", ground arith)
  | inr other ↦ (check_text t, rw other refl)
]

pub finds_true : contains "true" "true" ≡ true
unfolding contains
finds_true = refl

backed_up : (t : Trace) (s : String) → backup_of t ≡ some s → check_text t ≡ "true"
backed_up t s kept = ground arith

restored :
    (t : Trace)
    → (if has_backup t then succeed "" else failure).success ≡ true
    → backup_of t ≡ some "exit 0"
restored t good = ground arith

abbrev script_store : Store script_channel "t.sh"
script_store = record {
  content = λ t. some "exit 0";
  backup = backup_of;
  exists_content = λ t p. refl;
  exists_backup = λ t p. rw (check_starts 99 p, check_starts 114 p) refl;
  reports = λ t s kept. (refl, ("true", ap some (backed_up t s kept), finds_true));
  copy_content = λ t. refl;
  copy_backup = λ t good. ("exit 0", refl, refl);
  restore_content = λ t good. sym (restored t good);
  awk_backup = λ t args. refl;
  sed_backup = λ t args. refl;
  rm_content = λ t. refl;
}

copies_back :
    (t : Trace) (s : String)
    → script_store.backup t ≡ some s
    → (script_channel.answer t "cat" (copy_args (get_back_file "t.sh") "t.sh")).success ≡ true
copies_back t s kept = ground arith

script_example :
    Returns
      (λ r t'.
        (r.success ≡ false → script_store.content t' ≡ script_store.content [])
        × (r.success ≡ true
            → Returns
                (λ r' t''. script_store.content t'' ≡ script_store.content [])
                (recover_script script_channel "t.sh" t')))
      (start_with_content script_channel "t.sh" "offline" "exit 1" [])
script_example =
    start_with_content-Kept script_channel script_channel-AnswersTexts "t.sh" script_store
      copies_back "offline" "exit 1" []
