-- ===== src/Tests/Network.antt =====
-- The network experiments on a channel that answers every command with a success.
use chaosblade_exec_os.Prelude.{
  ◌≡◌, refl, arith, String, List, [], ◌∷◌, some, none, true, false, str_eq, if◌then◌else◌, All, ◌⊎◌,
}
use chaosblade_exec_os.Prelude.Result.{ok}
use chaosblade_exec_os.Ports.Ranges.{PortRange}
use chaosblade_exec_os.Ports.Ranges.Valid.{IsPortRange}
use chaosblade_exec_os.Go.Strconv.{atoi}
use chaosblade_exec_os.Ports.Parse.{parse_integer_list_to_port_ranges}
use chaosblade_exec_os.Channel.{Response, forbidden, Env}
use chaosblade_exec_os.Channel.Laws.{Returns}
use chaosblade_exec_os.Network.Tc.Queue.{stop_net}
use chaosblade_exec_os.Network.Tc.Start.{NetArgs, start_net}
use chaosblade_exec_os.Channel.{run, hung}
use chaosblade_exec_os.Go.Strings.{◌+s◌}
use chaosblade_exec_os.Network.Tc.Start.{PortRanges, add_rules}
use chaosblade_exec_os.Network.Tc.Hang.{zero_first, add_rules-hangs}
use chaosblade_exec_os.Network.Tc.Safety.{
  delete_root, EndsBy, Restored, HasPorts, stop_net_lem, start_net-Restored,
}
use chaosblade_exec_os.Network.Drop.{
  DropArgs, net_flows, matches_all, drop_start, drop_stop, start_flows, rule_text, rule_args,
}
use chaosblade_exec_os.Network.Drop.Rules.{AddsTo, copies, drop_start-drop_stop}
use chaosblade_exec_os.Network.Drop.Failure.{Answers, start_flows-hides_failure}
use chaosblade_exec_os.Tests.Channels.{
  good_channel, good_channel-AnswersTexts, good_firewall, channel, succeed, failure,
}

-- A text that is read as ranges of ports has ports.
read-HasPorts :
    (value : String) (rs : List PortRange)
    → parse_integer_list_to_port_ranges value ≡ ok rs
    → All IsPortRange rs
    → HasPorts value
read-HasPorts value rs read valid rs' read' =
    let same : rs' ≡ rs = ground (arith, read, read') in rw same valid

reads_80 : parse_integer_list_to_port_ranges "80" ≡ ok (record { first = 80; last = 80 } ∷ [])
unfolding parse_integer_list_to_port_ranges atoi
reads_80 = refl

has_80 : HasPorts "80"
has_80 = read-HasPorts "80" (record { first = 80; last = 80 } ∷ []) reads_80 (ground arith)

abbrev delay_80 : NetArgs
delay_80 = record {
  net_interface = "eth0";
  class_rule = "netem delay 3000ms 0ms";
  local_port = "80";
  remote_port = "80";
  exclude_port = "80";
  dest_ip = "10.0.0.1";
  exclude_ip = "";
  force = true;
  ignore_peer_ports = true;
  protocol = "tcp";
}

stop_net_example :
    Returns
      (λ r t'.
        ((good_channel.is_root ≡ true) × EndsBy (delete_root "eth0") t')
        ⊎ ((good_channel.is_root ≡ false)
            × (t' ≡ [])
            × (r ≡ good_channel.return_fail forbidden "tc no permission")))
      (stop_net good_channel "eth0" [])
stop_net_example = stop_net_lem good_channel "eth0" []

start_net_example : Returns (Restored delay_80 []) (start_net good_channel delay_80 [])
start_net_example =
    start_net-Restored good_channel delay_80 [] refl good_channel-AnswersTexts refl has_80 has_80
      has_80

abbrev drop_80 : DropArgs
drop_80 = record {
  source_ip = "";
  destination_ip = "";
  source_port = "";
  destination_port = "80,81";
  string_pattern = "";
  network_traffic = "";
}

drop_80-given : matches_all drop_80 ≡ false
unfolding matches_all
drop_80-given = refl

drop_example :
    Returns
      (λ r t'.
        AddsTo good_firewall (copies drop_80 (net_flows drop_80.network_traffic)) [] t'
        × Returns
            (λ r' t''.
              (other : String)
              → good_firewall.installed t'' other ≡ good_firewall.installed [] other)
            (drop_stop good_channel drop_80 t'))
      (drop_start good_channel drop_80 [])
drop_example = drop_start-drop_stop good_channel good_firewall drop_80 [] drop_80-given

-- A channel on which only the udp rule of INPUT is not added.
abbrev udp_refused : Env
udp_refused = channel λ t script args.
    if str_eq args (rule_args "-A" drop_80 "INPUT" "udp") then failure else succeed ""

input_tcp : Answers udp_refused drop_80 "INPUT" "tcp" true
unfolding rule_text
input_tcp t = refl

input_udp : Answers udp_refused drop_80 "INPUT" "udp" false
unfolding rule_text
input_udp t = refl

output_tcp : Answers udp_refused drop_80 "OUTPUT" "tcp" true
unfolding rule_text
output_tcp t = refl

output_udp : Answers udp_refused drop_80 "OUTPUT" "udp" true
unfolding rule_text
output_udp t = refl

hides_failure_example :
    Returns
      (λ r t'. (response : Response) × (r ≡ some response) × (response.success ≡ true))
      (start_flows udp_refused drop_80 ("INPUT" ∷ "OUTPUT" ∷ []) none [])
hides_failure_example =
    start_flows-hides_failure udp_refused drop_80 [] input_tcp input_udp output_tcp output_udp

-- Local port 0, to all remote ports.
abbrev delay_0 : NetArgs
delay_0 = record {
  net_interface = "eth0";
  class_rule = "netem delay 3000ms 0ms";
  local_port = "0";
  remote_port = "";
  exclude_port = "";
  dest_ip = "";
  exclude_ip = "";
  force = false;
  ignore_peer_ports = true;
  protocol = "";
}

abbrev port_0 : PortRanges
port_0 = record { local = zero_first 0 []; remote = []; exclude = [] }

hangs_example :
    add_rules good_channel delay_0 port_0 "" "" []
    ≡ hung (
        run "tc" ("qdisc add dev " +s delay_0.net_interface +s " root handle 1: prio bands 4") ∷ [])
hangs_example = add_rules-hangs good_channel delay_0 port_0 "" "" 0 [] [] refl refl
