-- ===== src/Tests/Remotes.antt =====
-- An experiment on another host.
use chaosblade_exec_os.Prelude.{none, some}
use chaosblade_exec_os.Prelude.Result.{ok}
use chaosblade_exec_os.Channel.{Flags}
use chaosblade_exec_os.Remote.{Client, Host}
use chaosblade_exec_os.Remote.Installed.{Installed}
use chaosblade_exec_os.Tests.Channels.{succeed}

abbrev client : Client
client = record {
  host = "10.0.0.1";
  username = "root";
  key = "";
  key_passphrase = "";
  password = "secret";
  port = 22;
}

abbrev host : Host
host = record {
  password = ok "secret";
  connect_error = λ t c. none;
  session_error = λ t c. none;
  combined_output = λ t c command. (some "done", none);
  decode = succeed;
  matchers = λ flags. "";
  blade_version = "1.7.4";
}

abbrev no_flags : Flags
no_flags name = none
