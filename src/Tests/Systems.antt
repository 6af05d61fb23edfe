-- ===== src/Tests/Systems.antt =====
-- Disks, processors, kernels, ports and processes at concrete inputs.
use chaosblade_exec_os.Prelude.{
  ◌≡◌, ◌⊎◌, refl, [], ◌∷◌, none, some, true, false, str_eq, arith, if◌then◌else◌,
}
use chaosblade_exec_os.Prelude.Result.{ok}
use chaosblade_exec_os.Go.Strconv.{pos}
use chaosblade_exec_os.Channel.{Env, Context, Flags, flag, flag_is_true, returned}
use chaosblade_exec_os.Channel.Laws.{Returns, trace_of}
use chaosblade_exec_os.Disk.{System}
use chaosblade_exec_os.Disk.Fill.{fill_sized}
use chaosblade_exec_os.Disk.Fill.CleanedUp.{Cleaned, fill_sized-Cleaned}
use chaosblade_exec_os.Disk.Burn.{asking, ended, burn_steps}
use chaosblade_exec_os.Disk.Burn.Confined.{Extended, Confined, burn_steps-Confined}
use chaosblade_exec_os.Cpu.{Cpus, Load, cpu_load, sleep_time, adjusted}
use chaosblade_exec_os.Cpu.Bounds.{IfOk, Bounded, Within, cpu_load-Bounded, sleep_time-Within}
use chaosblade_exec_os.Network.Occupy.{Listen, occupy_exec}
use chaosblade_exec_os.Network.Occupy.Killed.{KilledNamed, occupy_exec-KilledNamed}
use chaosblade_exec_os.Process.Load.{load_start, ping_line, uid_success}
use chaosblade_exec_os.Process.Load.Spawned.{spawned, load_start-spawned}
use chaosblade_exec_os.Tests.Channels.{channel, succeed, good_channel, good_channel-AnswersTexts}

abbrev system : System
system = record {
  is_dir = λ t path. true;
  blocks = λ t path. 1000;
  available_blocks = λ t path. 500;
  block_size = λ t path. 4096;
  open_error = λ t path. none;
  pids_or_nil = λ t name. some ("7" ∷ []);
  atoi_error = λ s. "invalid syntax";
  parse_float_error = λ s. "invalid syntax";
}

fill-Cleaned_example :
    Returns
      (λ r t'. (r.success ≡ true) ⊎ Cleaned good_channel system "/home" t')
      (fill_sized good_channel system "/home" false "10" [])
fill-Cleaned_example =
    fill_sized-Cleaned good_channel system "/home" "10" [] good_channel-AnswersTexts refl

burn-Confined_example :
    Returns
      (λ burners t'. Extended (Confined good_channel "/home" "10" true false) [] t')
      (burn_steps good_channel "/home" "10" (true ∷ true ∷ false ∷ true ∷ []) asking ended [])
burn-Confined_example =
    burn_steps-Confined good_channel "/home" "10" true false (true ∷ true ∷ false ∷ true ∷ []) []

abbrev cpus : Cpus
cpus = record {
  num_cpu = 4;
  is_ns_exec = false;
  cpu_count_by_pid = λ root pid. (pos 1, none);
  ns_target_flag = "pid";
  parse_integer_list = λ s. ok (s ∷ []);
}

abbrev eight_cpus : Flags
eight_cpus name =
    if str_eq name "cpu-count"
    then some "8"
    else if str_eq name "cpu-percent"
    then some "60"
    else none

cpu-Bounded_example :
    Returns
      (λ r t'. IfOk (Bounded good_channel eight_cpus cpus) r)
      (cpu_load good_channel cpus eight_cpus [])
cpu-Bounded_example = cpu_load-Bounded good_channel eight_cpus cpus [] refl (omega arith)

sleep_example : Within 0 1000000000 (sleep_time (adjusted (pos 2000000000) (pos 5)))
sleep_example = sleep_time-Within (pos 2000000000) (pos 5)

abbrev created : Context
created = record { uid = some "u1"; destroy = false }

abbrev load : Load
load = record {
  cpu_list = "0,2";
  cpu_count = pos 0;
  cpu_percent = pos 60;
  climb_time = pos 0;
  cpu_index = "";
}

abbrev listen : Listen
listen t address = none

abbrev forced : Flags
forced name =
    if str_eq name "port" then some "8080" else if str_eq name "force" then some "true" else none

-- netstat names the process 41.
abbrev occupied : Env
occupied = channel (λ t script args. succeed (if str_eq script "netstat" then "41/java " else ""))

occupy_example :
    KilledNamed occupied listen
      (flag forced "port")
      (flag_is_true forced "force")
      []
      (trace_of (occupy_exec occupied listen created forced []))
occupy_example = occupy_exec-KilledNamed occupied listen created forced [] refl

spawned_example :
    load_start good_channel created 3 "nobody" 0 []
    ≡ returned (uid_success good_channel created) (spawned 3 (ping_line "nobody") [])
spawned_example = load_start-spawned good_channel created 2 "nobody" 0 []
