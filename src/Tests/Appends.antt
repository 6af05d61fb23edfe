-- ===== src/Tests/Appends.antt =====
-- A file and its backup that `cp` copies and `echo` changes.
use chaosblade_exec_os.Prelude.{
  ◌≡◌, refl, String, [], ◌∷◌, Option, none, some, true, false, str_eq, if◌then◌else◌, ap,
  Bool-cases, inl, inr,
}
use chaosblade_exec_os.Prelude.Result.{ok}
use chaosblade_exec_os.Go.Strings.{contains}
use chaosblade_exec_os.Channel.{Env, Response, Context, run, Trace, returned}
use chaosblade_exec_os.Channel.Laws.{Returns, AnswersTexts}
use chaosblade_exec_os.Exec.{check_filepath_exists}
use chaosblade_exec_os.Script.Store.{exists_cmd}
use chaosblade_exec_os.File.{Codec, two_files}
use chaosblade_exec_os.File.Template.{randoms, parse_random}
use chaosblade_exec_os.File.Append.{
  Chance, AppendArgs, backup_uid, backup_file, append_lines, append_start,
  handle_one_time_operation,
}
use chaosblade_exec_os.File.Append.Lines.{same_lines, append_lines-drawn_once}
use chaosblade_exec_os.File.Append.Preserved.{OnlyLooked, handle_one_time_operation-OnlyLooked}
use chaosblade_exec_os.File.Append.Restored.{Backups, append_start-restored}
use chaosblade_exec_os.Tests.Channels.{channel, succeed, good_channel, good_channel-AnswersTexts}
use chaosblade_exec_os.Tests.Scripts.{starts, check_starts, finds_true}

abbrev codec : Codec
codec = record { decode_string = λ s. some s; md5_hex = λ s. s }

abbrev chance : Chance
chance = record { now = λ t layout. layout; draw = λ t k n. 7 }

abbrev log_args : AppendArgs
log_args = record {
  filepath = "log";
  content = "[@{RANDOM:100-200}]ms";
  escape = false;
  enable_base64 = false;
  enable_backup = true;
}

abbrev context : Context
context = record { uid = some "u1"; destroy = false }

drawn : parse_random (chance.draw []) log_args.content ≡ ok "[107]ms"
unfolding parse_random
drawn = refl

nothing_left : randoms "[107]ms" ≡ []
unfolding randoms
nothing_left = refl

drawn_once_example :
    Returns
      (λ r t'. t' ≡ same_lines good_channel codec chance log_args 3 "[107]ms" [])
      (append_lines good_channel codec chance log_args 3 log_args.content none [])
drawn_once_example =
    append_lines-drawn_once good_channel codec chance log_args 2 log_args.content "[107]ms" none []
      drawn nothing_left

OnlyLooked-example :
    Returns
      (OnlyLooked good_channel codec chance context "log" true [])
      (handle_one_time_operation good_channel codec chance context "log" true false [])
OnlyLooked-example =
    handle_one_time_operation-OnlyLooked good_channel codec chance context "log" true []
      good_channel-AnswersTexts

abbrev backup : String
backup = backup_file "log" "u1"

-- The content of the file and of its backup.
abbrev state : Trace → Option String × Option String
state [] = (some "old", none)
state (run script args ∷ t) =
    let (file, kept) = state t in
    if starts b'e' script
    then (some "new", kept)
    else if starts b'c' script
    then (if str_eq args (two_files "log" backup) then (file, file) else (kept, kept))
    else (file, kept)
state (_ ∷ t) = state t

abbrev on_backup : Option String → Response
on_backup none = succeed "no"
on_backup (some s) = succeed "true"

abbrev answers : Trace → String → String → Response
answers t script args =
    if str_eq script (exists_cmd backup) then on_backup (state t).1 else succeed "true"

abbrev file_channel : Env
file_channel = channel answers

on_backup-answers : (kept : Option String) → (s : String) × ((on_backup kept).result ≡ some s)
on_backup-answers none = ("no", refl)
on_backup-answers (some s) = ("true", refl)

file_channel-AnswersTexts : AnswersTexts file_channel
file_channel-AnswersTexts t script args good =
    elim (Bool-cases (str_eq script (exists_cmd backup))) [
      | inl asked ↦ rw asked (on_backup-answers (state t).1)
      | inr other ↦ ("true", rw other refl)
    ]

look_state : (t : Trace) (p : String) → state (run (exists_cmd p) "" ∷ t) ≡ state t
look_state t p = rw (check_starts 101 p, check_starts 99 p) refl

finds_log :
    (t : Trace)
    → check_filepath_exists file_channel "log" t ≡ returned true (run (exists_cmd "log") "" ∷ t)
unfolding check_filepath_exists
finds_log t = rw finds_true refl

finds_backup :
    (t : Trace) (s : String)
    → (state t).1 ≡ some s
    → check_filepath_exists file_channel backup t ≡ returned true (run (exists_cmd backup) "" ∷ t)
unfolding check_filepath_exists
finds_backup t s kept = rw (kept, finds_true) refl

finds_no : contains "no" "true" ≡ false
unfolding contains
finds_no = refl

misses_backup :
    (t : Trace)
    → (state t).1 ≡ none
    → check_filepath_exists file_channel backup t ≡ returned false (run (exists_cmd backup) "" ∷ t)
unfolding check_filepath_exists
misses_backup t fresh = rw (fresh, finds_no) refl

abbrev files : Backups file_channel "log" backup
files = record {
  content = λ t. (state t).0;
  kept = λ t. (state t).1;
  look_content = λ t p. ap (λ p. p.0) (look_state t p);
  look_kept = λ t p. ap (λ p. p.1) (look_state t p);
  finds_content = λ t s was. finds_log t;
  finds_kept = finds_backup;
  misses_kept = misses_backup;
  copy_kept = λ t s copied was. was;
  restore_content = λ t s copied kept. kept;
  echo_kept = λ t args. refl;
  mkdir_kept = λ t args. refl;
  rm_content = λ t. refl;
}

known : backup_uid file_channel context ≡ some "u1"
unfolding backup_uid
known = refl

restored_example :
    Returns
      (λ r t'.
        Returns
          (λ r' t''. (r'.success ≡ true) × (files.content t'' ≡ some "old"))
          (handle_one_time_operation file_channel codec chance context "log" true true t'))
      (append_start file_channel codec chance context log_args 3 1 5 [])
restored_example =
    append_start-restored file_channel codec chance file_channel-AnswersTexts log_args "u1" files
      (λ t. refl) (λ t. refl) context 2 1 5 [] "old" refl known refl refl
