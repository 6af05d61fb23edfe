-- ===== src/Tests/Programs.antt =====
-- The program at a concrete command line.
use chaosblade_exec_os.Prelude.{
  ◌≡◌, refl, String, List, [], ◌∷◌, Option, none, some, true, false, str_eq, if◌then◌else◌,
}
use chaosblade_exec_os.Channel.{Flags, flag, pure, returned}
use chaosblade_exec_os.File.{Codec}
use chaosblade_exec_os.File.Append.{Chance, AppendArgs, back_up_if}
use chaosblade_exec_os.Program.{
  Words, ModelSpec, Executor, printed, main, parse_args, exec_uid, context_of,
}
use chaosblade_exec_os.Program.Dispatch.{back_up_if-no_uid}
use chaosblade_exec_os.Tests.Channels.{good_channel, succeed}

abbrev words : Words
words = record {
  create = "create";
  destroy = "destroy";
  local_channel = "local";
  ns_exec_bin = "nsexec";
  ns_target = "ns_target";
  ns_pid = "ns_pid";
  ns_mnt = "ns_mnt";
  ns_net = "ns_net";
}

abbrev models : List ModelSpec
models =
    record {
      name = "cpu";
      flags = record { name = "cpu-percent"; default = "" } ∷ [];
      actions = record { name = "fullload"; flags = []; matchers = [] } ∷ [];
    }
    ∷ []

abbrev executors : String → Option Executor
executors key =
    if str_eq key "cpufullload"
    then some (λ channel uid ctx flags. pure (some (succeed uid)))
    else none

parsed :
    parse_args
      (record { name = "cpu-percent"; default = "" } ∷ [])
      ("--cpu-percent=60" ∷ "-cpu-percent" ∷ "70" ∷ "rest" ∷ [])
      []
    ≡ some (("cpu-percent", "70") ∷ ("cpu-percent", "60") ∷ [])
unfolding parse_args
parsed = refl

dispatched :
    main good_channel words models executors "u7"
      (λ args. "")
      ("chaos_os" ∷ "create" ∷ "cpu" ∷ "fullload" ∷ "--cpu-percent" ∷ "60" ∷ [])
      []
    ≡ returned (printed (some (succeed "u7"))) []
unfolding main
dispatched = refl

abbrev codec : Codec
codec = record { decode_string = λ s. some s; md5_hex = λ s. s }

abbrev chance : Chance
chance = record { now = λ t layout. layout; draw = λ t k n. 7 }

abbrev log_args : AppendArgs
log_args = record {
  filepath = "log";
  content = "a";
  escape = false;
  enable_base64 = false;
  enable_backup = true;
}

abbrev no_flags : Flags
no_flags name = none

empty_uid : flag no_flags "uid" ≡ ""
unfolding flag
empty_uid = refl

no_uid_example :
    (exec_uid words "u7" "create" no_flags ≡ "u7")
    × (back_up_if good_channel codec chance (context_of words "create" no_flags) log_args []
        ≡ returned none [])
no_uid_example =
    back_up_if-no_uid good_channel codec chance words "u7" "create" no_flags log_args [] refl
      empty_uid
