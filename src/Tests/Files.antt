-- ===== src/Tests/Files.antt =====
-- The mode of a file at a concrete input.
use chaosblade_exec_os.Prelude.{[]}
use chaosblade_exec_os.Channel.Laws.{Returns}
use chaosblade_exec_os.File.Chmod.{start_chmod_file}
use chaosblade_exec_os.File.Chmod.Noted.{FailedOrNoted, start_chmod_file-FailedOrNoted}
use chaosblade_exec_os.Tests.Channels.{good_channel, good_channel-AnswersTexts}

chmod_example :
    Returns
      (FailedOrNoted good_channel "/home/nginx.log" "777")
      (start_chmod_file good_channel "/home/nginx.log" "777" [])
chmod_example =
    start_chmod_file-FailedOrNoted good_channel "/home/nginx.log" "777" [] good_channel-AnswersTexts
