-- ===== src/Tests/Processes.antt =====
-- Processes, scripts and the clock at concrete inputs.
use chaosblade_exec_os.Prelude.{◌≡◌, refl, [], ◌∷◌, none, some, false, str_eq, if◌then◌else◌}
use chaosblade_exec_os.Prelude.Result.{ok}
use chaosblade_exec_os.Go.Strconv.{atoi, pos}
use chaosblade_exec_os.Channel.{Context, Flags, flag, flag_is_true}
use chaosblade_exec_os.Channel.Laws.{Returns}
use chaosblade_exec_os.Process.{Util, pid_flags, kill_exec}
use chaosblade_exec_os.Process.Signals.{Signalled, kill_exec-limited}
use chaosblade_exec_os.Time.{set_system_time}
use chaosblade_exec_os.Time.Attempts.{SetOrAllFailed, set_system_time-SetOrAllFailed}
use chaosblade_exec_os.Tests.Channels.{good_channel}

abbrev util : Util
util = record { parse_integer_list = λ s. ok (s ∷ []); remove_duplicates = λ pids. pids }

abbrev created : Context
created = record { uid = some "u1"; destroy = false }

abbrev kill_two : Flags
kill_two name =
    if str_eq name "process"
    then some "java"
    else if str_eq name "count"
    then some "2"
    else if str_eq name "signal"
    then some "9"
    else none

not_ignored : flag_is_true kill_two "ignore-not-found" ≡ false
unfolding flag_is_true
not_ignored = refl

count_two : atoi (flag kill_two "count") ≡ some (pos 2)
unfolding atoi flag
count_two = refl

kill_limited_example :
    Returns
      (Signalled good_channel util (pid_flags kill_two) (flag kill_two "signal") 2 [])
      (kill_exec good_channel util "u1" created kill_two [])
kill_limited_example =
    kill_exec-limited good_channel util "u1" created kill_two 1 [] refl not_ignored count_two

set_time_example :
    Returns
      (SetOrAllFailed good_channel (λ layout. layout) [])
      (set_system_time good_channel (λ layout. layout) [])
set_time_example = set_system_time-SetOrAllFailed good_channel (λ layout. layout) []
