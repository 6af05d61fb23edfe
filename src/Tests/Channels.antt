-- ===== src/Tests/Channels.antt =====
-- A channel that answers every command with a success, for the tests.
use Prim.Native.String.append
use Prim.Native.String.{[], ◌∷◌}
use mathlib.Core.List.{[], ◌∷◌}
use chaosblade_exec_os.Prelude.{
  ℕ, ◌≡◌, refl, ◌==◌, code, Char, ap, ◌∙◌, ◌+◌, ◌-◌, String, none, some, true, false, if◌then◌else◌,
}
use chaosblade_exec_os.Prelude.Result.{ok}
use chaosblade_exec_os.Channel.{Env, Response, run, Trace}
use chaosblade_exec_os.Channel.Laws.{AnswersTexts}
use chaosblade_exec_os.Go.Strings.{◌+s◌}
use chaosblade_exec_os.Network.Drop.Rules.{Firewall, same}

abbrev pub succeed : String → Response
succeed text = record { success = true; err = ""; result = some text }

abbrev pub failure : Response
failure = record { success = false; err = "failed"; result = none }

-- The channel whose answers are given, on which every command is there and process 7 is found.
abbrev pub channel : (Trace → String → String → Response) → Env
channel answers = record {
  answer = answers;
  has_command = λ t name. true;
  missing_command = λ t names. none;
  pids_of_name = λ t excluded name. ok ("7" ∷ "8" ∷ "9" ∷ []);
  pids_of_cmd = λ t excluded name. ok ("7" ∷ []);
  pids_of_ports = λ t excluded ports. ok ("7" ∷ []);
  local_pids_of = λ t key name. [];
  local_answer = λ t script args. succeed "";
  local_missing_command = λ t names. none;
  spawn_error = λ t line. none;
  is_root = true;
  is_effective_root = true;
  program_path = "/opt";
  program_name = "chaos_os";
  unknown_uid = "unknown";
  chaos_os_bin = "chaos_os";
  fail_with_flags = λ c flags. failure;
  return_fail = λ c text. failure;
  return_success = succeed;
  plain_success = succeed "success";
  sprintf_code = λ c texts. "";
  command_ss_not_found_msg = "";
  atoi_error = λ s. "invalid syntax";
  fail_with_flags_fails = λ c flags. refl;
  return_fail_fails = λ c text. refl;
  return_success_succeeds = λ text. refl;
  plain_success_succeeds = refl;
  return_success_result = λ text. refl;
}

abbrev pub good_channel : Env
good_channel = channel λ t script args. succeed ""

pub good_channel-AnswersTexts : AnswersTexts good_channel
good_channel-AnswersTexts t script args good = ("", refl)

-- A command "-A…" adds one copy of a rule, any other deletes one.
abbrev change : String → String → ℕ → ℕ
change [] other n = n
change (dash ∷ []) other n = n
change (dash ∷ op ∷ rule) other n =
    if code op == 65 then n + same rule other else n - same rule other

-- An operation of two letters and a rule.
pub op_rule : (dash op : Char) (rule : String) → ((dash ∷ op ∷ []) +s rule) ≡ (dash ∷ op ∷ rule)
op_rule dash op rule =
    append.cons dash (op ∷ []) rule
    ∙ ap (λ s. dash ∷ s) (append.cons op [] rule ∙ ap (λ s. op ∷ s) (append.nil rule))

abbrev installed_after : Trace → String → ℕ
installed_after [] other = 0
installed_after (run script args ∷ t) other = change args other (installed_after t other)
installed_after (_ ∷ t) other = installed_after t other

abbrev pub good_firewall : Firewall good_channel
good_firewall = record {
  installed = installed_after;
  succeeds = λ t args. refl;
  appends = λ t rule other. rw (op_rule "-" "A" rule) refl;
  deletes = λ t rule other. rw (op_rule "-" "D" rule) refl;
}
