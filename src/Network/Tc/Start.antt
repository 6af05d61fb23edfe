-- ===== src/Network/Tc/Start.antt =====
-- `startNet` of exec/network/tc/network_tc.go, stage by stage.
use chaosblade_exec_os.Prelude.{
  ◌&&◌, String, List, [], ◌∷◌, Option, none, some, Bool, true, false, str_eq, if◌then◌else◌,
}
use chaosblade_exec_os.Prelude.Result.{Result, ok, err}
use chaosblade_exec_os.Go.Strings.{◌+s◌, join}
use chaosblade_exec_os.Ports.Ranges.{PortRange}
use chaosblade_exec_os.Ports.Parse.{parse_integer_list_to_port_ranges}
use chaosblade_exec_os.Channel.{
  Env, Response, parameter_invalid, parameter_illegal, M, pure, ◌>>=◌, ◌>>◌, or_hang, run_cmd,
}
use chaosblade_exec_os.Network.Tc.Filters.{
  Target, is_nil, get_ip_rules, get_exclude_ip_rules, build_netem_to_default_bands_args,
  build_exclude_filter_to_new_band,
}
use chaosblade_exec_os.Network.Tc.Queue.{
  pre_handle_txqueue, stop_net, add_qdisc_for_dl, run_or_stop,
  execute_target_port_and_ip_with_exclude,
}
use chaosblade_exec_os.Network.Tc.Peers.{parse_error_text, get_exclude_port_ranges}

-- The arguments of `startNet`.
pub record NetArgs : Type 0 where
  pub net_interface : String
  pub class_rule : String
  pub local_port : String
  pub remote_port : String
  pub exclude_port : String
  pub dest_ip : String
  pub exclude_ip : String
  pub force : Bool
  pub ignore_peer_ports : Bool
  pub protocol : String

-- The switch on the protocol; `none` is not supported.
unfoldable pub protocol_number : String → Option String
protocol_number protocol =
    if str_eq protocol ""
    then some ""
    else if str_eq protocol "tcp"
    then some "6"
    else if str_eq protocol "udp"
    then some "17"
    else if str_eq protocol "icmp"
    then some "1"
    else none

abbrev pub read_server_ips : List String
read_server_ips = []

-- The peer servers of the command channel are excluded as well.
unfoldable pub with_channel_ips : List String → String → String
unfolding is_nil
with_channel_ips ips exclude_ip =
    if is_nil ips
    then exclude_ip
    else if str_eq exclude_ip ""
    then join ips ","
    else join ips "," +s "," +s exclude_ip

-- The port ranges of the three flags.
pub record PortRanges : Type 0 where
  pub local : List PortRange
  pub remote : List PortRange
  pub exclude : List PortRange

-- What the rules select: destIpRules, excludeIpRules and the port ranges.
unfoldable pub target_of : NetArgs → PortRanges → String → Target
unfolding get_ip_rules get_exclude_ip_rules
target_of a ranges exclude_ip = record {
  local_port_ranges = ranges.local;
  remote_port_ranges = ranges.remote;
  dest_ip_rules = get_ip_rules a.dest_ip;
  exclude_port_ranges = ranges.exclude;
  exclude_ip_rules = get_exclude_ip_rules exclude_ip;
}

module _ (env : Env) where
  -- A port flag that is not given has no ranges; an error is the response to return.
  unfoldable pub parse_port_flag : String → String → Result Response (List PortRange)
  parse_port_flag flag_name value =
      if str_eq value "" then ok [] else (elim (parse_integer_list_to_port_ranges value) [
        | ok ranges ↦ ok ranges
        | err e ↦ err (
            env.fail_with_flags parameter_illegal
              (flag_name ∷ value ∷ parse_error_text env flag_name value e ∷ []))
      ])

  unfoldable pub exclude_port_flag : NetArgs → M (Result Response (List PortRange))
  exclude_port_flag a = elim (str_eq a.exclude_port "") [
    | true ↦ pure (ok [])
    | false ↦ do
      result ← get_exclude_port_ranges env a.exclude_port a.ignore_peer_ports
      pure (elim result [
        | ok ranges ↦ ok ranges
        | err e ↦
            err (env.fail_with_flags parameter_illegal ("exclude-port" ∷ a.exclude_port ∷ e ∷ []))
      ])
  ]

  -- From `addQdiscForDL` on, whose response is not read.
  unfoldable pub add_rules : NetArgs → PortRanges → String → String → M Response
  unfolding add_qdisc_for_dl run_or_stop execute_target_port_and_ip_with_exclude target_of
      build_netem_to_default_bands_args build_exclude_filter_to_new_band
  add_rules a ranges exclude_ip protocol = do
    add_qdisc_for_dl env a.net_interface
    elim (str_eq a.local_port ""
        && str_eq a.remote_port ""
        && str_eq a.dest_ip ""
        && str_eq protocol "") [
          | true ↦ do
            exclude_filters ←
                or_hang (build_exclude_filter_to_new_band a.net_interface ranges.exclude exclude_ip)
            run_or_stop env a.net_interface
                (build_netem_to_default_bands_args a.net_interface a.class_rule +s exclude_filters)
          | false ↦
              execute_target_port_and_ip_with_exclude env a.net_interface a.class_rule
                (target_of a ranges exclude_ip) protocol
        ]

  -- `if force { stopNet(…) }`
  unfoldable pub stop_if_forced : NetArgs → M Response
  unfolding stop_net
  stop_if_forced a = elim a.force [
    | true ↦ stop_net env a.net_interface
    | false ↦ pure (env.return_success "")
  ]

  -- What follows the forced stop.
  unfoldable pub add_queue : NetArgs → PortRanges → String → String → M Response
  add_queue a ranges exclude_ip protocol =
      elim (str_eq a.local_port ""
        && str_eq a.remote_port ""
        && str_eq a.exclude_port ""
        && str_eq a.dest_ip ""
        && str_eq exclude_ip ""
        && str_eq protocol "") [
          | true ↦
              run_cmd env "tc" ("qdisc add dev " +s a.net_interface +s " root " +s a.class_rule)
          | false ↦ add_rules a ranges exclude_ip protocol
        ]

  -- From the server ips on.
  unfoldable pub change_queue : NetArgs → PortRanges → String → M Response
  change_queue a ranges protocol = do
    stop_if_forced a
    add_queue a ranges (with_channel_ips read_server_ips a.exclude_ip) protocol

  -- From the excluded ports on.
  unfoldable pub start_with_ranges : NetArgs → List PortRange → List PortRange → String → M Response
  start_with_ranges a local remote protocol = do
    excluded ← exclude_port_flag a
    elim excluded [
      | err response ↦ pure response
      | ok exclude ↦ do
        response ← pre_handle_txqueue env a.net_interface
        elim response.success [
          | false ↦ pure response
          | true ↦
              change_queue a (record { local = local; remote = remote; exclude = exclude }) protocol
        ]
    ]

  unfoldable pub start_net : NetArgs → M Response
  start_net a = elim (protocol_number a.protocol) [
    | none ↦ pure (
        env.fail_with_flags parameter_invalid ("protocol" ∷ a.protocol ∷ "unsupport protocol" ∷ []))
    | some protocol ↦ elim (parse_port_flag "local-port" a.local_port) [
      | err response ↦ pure response
      | ok local ↦ elim (parse_port_flag "remote-port" a.remote_port) [
        | err response ↦ pure response
        | ok remote ↦ start_with_ranges a local remote protocol
      ]
    ]
  ]
