-- ===== src/Network/Tc/Queue.antt =====
-- The queue of a network device in exec/network/tc/network_tc.go: `preHandleTxqueue`,
-- `addQdiscForDL`, `stopNet` and `executeTargetPortAndIpWithExclude`.
use chaosblade_exec_os.Prelude.{
  ◌&&◌, suc, String, Option, none, some, Bool, true, false, str_eq, if◌then◌else◌,
}
use chaosblade_exec_os.Go.Strings.{◌+s◌, trim_space}
use chaosblade_exec_os.Go.Strconv.{ℤ, pos, atoi}
use chaosblade_exec_os.Channel.{
  Env, Response, forbidden, M, pure, ◌>>=◌, ◌>>◌, or_hang, text_of, run_cmd, is_command_available,
}
use chaosblade_exec_os.Exec.{check_filepath_exists}
use chaosblade_exec_os.Network.Tc.Filters.{Target, build_target_filter_port_and_ip}

-- `err == nil && len > 0` for the length that is read
unfoldable pub is_positive : Option ℤ → Bool
is_positive (some (pos (suc n))) = true
is_positive _ = false

-- response.Success && response.Result != "": nil is not "".
unfoldable pub has_filters : Response → Bool
has_filters r =
    r.success && (elim r.result [ none ↦ true | some s ↦ if str_eq s "" then false else true ])

module _ (env : Env) where
  -- The end of `preHandleTxqueue`: the length is set to 1000.
  unfoldable pub set_txqueuelen : String → M Response
  set_txqueuelen dev = do
    available ← is_command_available env "ifconfig"
    elim available [
      | true ↦ do
        run_cmd env "ifconfig" (dev +s " txqueuelen 1000")
        pure (env.return_success "success")
      | false ↦ pure (env.return_success "success")
    ]

  -- The file of the length exists: a positive length is kept.
  unfoldable pub check_txqueuelen : String → String → M Response
  unfolding set_txqueuelen is_positive trim_space
  check_txqueuelen dev tx_file = do
    response ← run_cmd env "head" ("-1 " +s tx_file)
    elim response.success [
      | false ↦ set_txqueuelen dev
      | true ↦ do
        result ← text_of response
        elim (is_positive (atoi (trim_space result))) [
          | true ↦ pure response
          | false ↦ set_txqueuelen dev
        ]
    ]

  unfoldable pub pre_handle_txqueue : String → M Response
  unfolding check_filepath_exists check_txqueuelen
  pre_handle_txqueue dev = do
    let tx_file = "/sys/class/net/" +s dev +s "/tx_queue_len"
    is_exist ← check_filepath_exists env tx_file
    elim is_exist [ true ↦ check_txqueuelen dev tx_file | false ↦ set_txqueuelen dev ]

  unfoldable pub add_qdisc_for_dl : String → M Response
  add_qdisc_for_dl dev =
      run_cmd env "tc" ("qdisc add dev " +s dev +s " root handle 1: prio bands 4")

  unfoldable pub stop_net : String → M Response
  unfolding has_filters
  stop_net dev = elim env.is_root [
    | false ↦ pure (env.return_fail forbidden "tc no permission")
    | true ↦ do
      response ← run_cmd env "tc" ("filter show dev " +s dev +s " parent 1: prio 4")
      elim (has_filters response) [
        | true ↦ do
          run_cmd env "tc" ("filter del dev " +s dev +s " parent 1: prio 4")
          run_cmd env "tc" ("qdisc del dev " +s dev +s " root")
        | false ↦ run_cmd env "tc" ("qdisc del dev " +s dev +s " root")
      ]
  ]

  -- The last command of an experiment: if it fails, the queues are removed.
  unfoldable pub run_or_stop : String → String → M Response
  unfolding stop_net
  run_or_stop dev args = do
    response ← run_cmd env "tc" args
    elim response.success [ true ↦ pure response | false ↦ do stop_net dev; pure response ]

  unfoldable pub execute_target_port_and_ip_with_exclude :
      String → String → Target → String → M Response
  unfolding run_or_stop build_target_filter_port_and_ip
  execute_target_port_and_ip_with_exclude dev class_rule g protocol = do
    args ← or_hang (
        build_target_filter_port_and_ip g
          ("qdisc add dev " +s dev +s " parent 1:4 handle 40: " +s class_rule) dev protocol)
    run_or_stop dev args
