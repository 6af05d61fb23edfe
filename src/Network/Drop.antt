-- ===== src/Network/Drop.antt =====
-- exec/network/network_drop.go: packets are dropped by rules of iptables.
pub mod Rules
pub mod Failure
use chaosblade_exec_os.Prelude.{
  ◌&&◌, String, List, [], ◌∷◌, Option, none, some, Bool, true, false, str_eq, if◌then◌else◌,
}
use chaosblade_exec_os.Go.Strings.{◌+s◌, contains}
use chaosblade_exec_os.Channel.{
  Env, Response, Context, Flags, flag, os_cmd_exec_failed, M, pure, ◌>>=◌, ◌>>◌, run_cmd,
  is_all_commands_available,
}

-- The arguments of `start` and `stop`.
pub record DropArgs : Type 0 where
  pub source_ip : String
  pub destination_ip : String
  pub source_port : String
  pub destination_port : String
  pub string_pattern : String
  pub network_traffic : String

-- Text that is added where a flag is given.
unfoldable pub when_given : String → String → String
when_given value text = if str_eq value "" then "" else text

-- A port flag: a list of ports needs the module multiport.
unfoldable pub port_match : String → String → String
unfolding contains when_given
port_match side ports = when_given ports (
    if contains ports ","
    then " -m multiport --" +s side +s "ports " +s ports
    else " --" +s side +s "port " +s ports)

-- tcpArgs and udpArgs after the chain and the protocol.
unfoldable pub match_args : DropArgs → String
unfolding when_given port_match
match_args a =
    when_given a.source_ip (" -s " +s a.source_ip)
    +s when_given a.destination_ip (" -d " +s a.destination_ip)
    +s port_match "s" a.source_port
    +s port_match "d" a.destination_port
    +s when_given a.string_pattern (" -m string --string " +s a.string_pattern +s " --algo bm")
    +s " -j DROP"

-- The rule for a protocol, after "-A" or "-D".
unfoldable pub rule_text : DropArgs → String → String → String
unfolding match_args
rule_text a net_flow protocol = " " +s net_flow +s " -p " +s protocol +s match_args a

-- The arguments that add ("-A") or delete ("-D") a rule.
abbrev pub rule_args : String → DropArgs → String → String → String
rule_args op a net_flow protocol = op +s rule_text a net_flow protocol

unfoldable pub net_flows : String → List String
net_flows traffic =
    if str_eq traffic "out"
    then "OUTPUT" ∷ []
    else if str_eq traffic "in"
    then "INPUT" ∷ []
    else "INPUT" ∷ "OUTPUT" ∷ []

-- destinationIp == "" && sourceIp == "" && …
unfoldable pub matches_all : DropArgs → Bool
matches_all a =
    str_eq a.destination_ip ""
    && str_eq a.source_ip ""
    && str_eq a.destination_port ""
    && str_eq a.source_port ""
    && str_eq a.string_pattern ""

module _ (env : Env) (a : DropArgs) where
  -- The loop of `stop`, with the response so far; `none` is nil.
  unfoldable pub stop_flows : List String → Option Response → M (Option Response)
  stop_flows [] response = pure response
  stop_flows (net_flow ∷ rest) response = do
    tcp ← run_cmd env "iptables" (rule_args "-D" a net_flow "tcp")
    elim tcp.success [
      | false ↦ pure (some tcp)
      | true ↦ do
        udp ← run_cmd env "iptables" (rule_args "-D" a net_flow "udp")
        elim udp.success [ false ↦ pure (some udp) | true ↦ stop_flows rest (some udp) ]
    ]

  unfoldable pub drop_stop : M (Option Response)
  unfolding stop_flows
  drop_stop = stop_flows (net_flows a.network_traffic) none

  -- The loop of `start`: after a udp rule that fails, the rules are deleted and the loop goes on.
  unfoldable pub start_flows : List String → Option Response → M (Option Response)
  unfolding drop_stop
  start_flows [] response = pure response
  start_flows (net_flow ∷ rest) response = do
    tcp ← run_cmd env "iptables" (rule_args "-A" a net_flow "tcp")
    elim tcp.success [
      | false ↦ do drop_stop; pure (some tcp)
      | true ↦ do
        udp ← run_cmd env "iptables" (rule_args "-A" a net_flow "udp")
        elim udp.success [ false ↦ drop_stop | true ↦ pure none ]
        start_flows rest (some udp)
    ]

  unfoldable pub drop_start : M (Option Response)
  unfolding start_flows
  drop_start = elim (matches_all a) [
    | true ↦
        pure (some (env.return_fail os_cmd_exec_failed "must specify ip or port or string flag"))
    | false ↦ start_flows (net_flows a.network_traffic) none
  ]

unfoldable pub drop_args : Flags → DropArgs
unfolding flag
drop_args flags = record {
  source_ip = flag flags "source-ip";
  destination_ip = flag flags "destination-ip";
  source_port = flag flags "source-port";
  destination_port = flag flags "destination-port";
  string_pattern = flag flags "string-pattern";
  network_traffic = flag flags "network-traffic";
}

unfoldable pub drop_exec : Env → Context → Flags → M (Option Response)
unfolding drop_start drop_stop drop_args
drop_exec env ctx flags = do
  missing ← is_all_commands_available env ("iptables" ∷ [])
  elim missing [
    | some response ↦ pure (some response)
    | none ↦ elim ctx.destroy [
      | true ↦ drop_stop env (drop_args flags)
      | false ↦ drop_start env (drop_args flags)
    ]
  ]
