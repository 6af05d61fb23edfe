-- ===== src/Network/Tc/Safety/Stages.antt =====
-- The stages of `startNet`, each with what it returns and the calls that it has made.
use chaosblade_exec_os.Prelude.{
  ◌≡◌, refl, String, ◌∷◌, Bool, true, false, ◌&&◌, ◌⊎◌, inl, inr, str_eq, arith, All, Bool-cases,
}
use chaosblade_exec_os.Go.Strings.{◌+s◌, trim_space}
use chaosblade_exec_os.Go.Strconv.{atoi}
use chaosblade_exec_os.Ports.Ranges.Valid.{IsPortRange}
use chaosblade_exec_os.Channel.{Env, Response, Call, run, Trace, M}
use chaosblade_exec_os.Channel.Laws.{trace_of, Returns, Returns-bind, AnswersTexts}
use chaosblade_exec_os.Exec.{check_filepath_exists}
use chaosblade_exec_os.Network.Tc.Filters.{Target}
use chaosblade_exec_os.Network.Tc.Total.{build_target-Built, build_exclude_filter-Built}
use chaosblade_exec_os.Network.Tc.Queue.{
  is_positive, set_txqueuelen, check_txqueuelen, pre_handle_txqueue, add_qdisc_for_dl, stop_net,
  run_or_stop, execute_target_port_and_ip_with_exclude,
}
use chaosblade_exec_os.Network.Tc.Start.{
  NetArgs, PortRanges, add_rules, stop_if_forced, add_queue, change_queue, target_of,
  with_channel_ips, read_server_ips,
}

-- The call that removes the queues of a device.
abbrev pub delete_root : String → Call
delete_root dev = run "tc" ("qdisc del dev " +s dev +s " root")

-- The call that is made where only an interface is given.
abbrev pub add_root : NetArgs → Call
add_root a = run "tc" ("qdisc add dev " +s a.net_interface +s " root " +s a.class_rule)

-- The newest call is this one.
abbrev pub EndsBy : Call → Trace → Type 0
EndsBy call t = (older : Trace) × (t ≡ call ∷ older)

-- The response is a success, or the last call removes the queues, or nothing was called, or the last
-- call is the one that is made where only an interface is given.
abbrev pub Restored : NetArgs → Trace → Response → Trace → Type 0
Restored a t₀ r t =
    (r.success ≡ true)
    ⊎ (EndsBy (delete_root a.net_interface) t ⊎ ((t ≡ t₀) ⊎ EndsBy (add_root a) t))

-- As root, `stopNet` returns, and its last call removes the queues.
pub stop_net-EndsBy :
    (env : Env) (dev : String) (t : Trace)
    → env.is_root ≡ true
    → Returns (λ r t'. EndsBy (delete_root dev) t') (stop_net env dev t)
unfolding stop_net
stop_net-EndsBy env dev t root = ground arith

module _ (env : Env) (root : env.is_root ≡ true) (texts : AnswersTexts env) (a : NetArgs)
    (t₀ : Trace) where
  run_or_stop-Restored :
      (args : String) (t : Trace) → Returns (Restored a t₀) (run_or_stop env a.net_interface args t)
  unfolding run_or_stop
  run_or_stop-Restored args t = elim (Bool-cases (env.answer t "tc" args).success) [
    | inl good ↦ rw good (inl good)
    | inr bad ↦ rw bad (
        Returns-bind (λ r t'. EndsBy (delete_root a.net_interface) t') (Restored a t₀)
          (stop_net env a.net_interface (run "tc" args ∷ t)) _
          (stop_net-EndsBy env a.net_interface (run "tc" args ∷ t) root) (λ r t' e. inr (inl e)))
  ]

  execute-Restored :
      (g : Target) (protocol : String) (t : Trace)
      → All IsPortRange g.local_port_ranges
      → All IsPortRange g.remote_port_ranges
      → All IsPortRange g.exclude_port_ranges
      → Returns
          (Restored a t₀)
          (execute_target_port_and_ip_with_exclude env a.net_interface a.class_rule g protocol t)
  unfolding execute_target_port_and_ip_with_exclude
  execute-Restored g protocol t l r x =
      let (args, built) =
        build_target-Built g
          ("qdisc add dev " +s a.net_interface +s " parent 1:4 handle 40: " +s a.class_rule)
          a.net_interface protocol l r x in
      rw built (run_or_stop-Restored args t)

  add_rules-Restored :
      (ranges : PortRanges) (exclude_ip protocol : String) (t : Trace)
      → All IsPortRange ranges.local
      → All IsPortRange ranges.remote
      → All IsPortRange ranges.exclude
      → Returns (Restored a t₀) (add_rules env a ranges exclude_ip protocol t)
  unfolding add_rules
  add_rules-Restored ranges exclude_ip protocol t l r x =
      elim (Bool-cases (
        str_eq a.local_port ""
        && str_eq a.remote_port ""
        && str_eq a.dest_ip ""
        && str_eq protocol "")) [
          | inl only_excluded ↦
              let (filters, built) =
                build_exclude_filter-Built a.net_interface ranges.exclude exclude_ip x in
              rw only_excluded (rw built (run_or_stop-Restored _ _))
          | inr targets ↦ rw targets (
              execute-Restored (target_of a ranges exclude_ip) protocol
                (trace_of (add_qdisc_for_dl env a.net_interface t)) l r x)
        ]

  stop_if_forced-Returns : (t : Trace) → Returns (λ r t'. Unit {0}) (stop_if_forced env a t)
  unfolding stop_if_forced stop_net
  stop_if_forced-Returns t = ground arith

  add_queue-Restored :
      (ranges : PortRanges) (exclude_ip protocol : String) (t : Trace)
      → All IsPortRange ranges.local
      → All IsPortRange ranges.remote
      → All IsPortRange ranges.exclude
      → Returns (Restored a t₀) (add_queue env a ranges exclude_ip protocol t)
  unfolding add_queue
  add_queue-Restored ranges exclude_ip protocol t l r x =
      elim (Bool-cases (
        str_eq a.local_port ""
        && str_eq a.remote_port ""
        && str_eq a.exclude_port ""
        && str_eq a.dest_ip ""
        && str_eq exclude_ip ""
        && str_eq protocol "")) [
          | inl only_interface ↦ rw (only_interface, Returns) (inr (inr (inr (t, refl))))
          | inr rules ↦ rw (rules, Returns) (add_rules-Restored ranges exclude_ip protocol t l r x)
        ]

  pub change_queue-Restored :
      (ranges : PortRanges) (protocol : String) (t : Trace)
      → All IsPortRange ranges.local
      → All IsPortRange ranges.remote
      → All IsPortRange ranges.exclude
      → Returns (Restored a t₀) (change_queue env a ranges protocol t)
  unfolding change_queue
  change_queue-Restored ranges protocol t l r x =
      Returns-bind (λ r' t'. Unit {0}) (Restored a t₀) (stop_if_forced env a t) _
        (stop_if_forced-Returns t)
        λ r' t' _.
          add_queue-Restored ranges (with_channel_ips read_server_ips a.exclude_ip) protocol t' l r
            x

  check_filepath_exists-Returns :
      (path : String) (t : Trace) → Returns (λ b t'. Unit {0}) (check_filepath_exists env path t)
  unfolding check_filepath_exists
  check_filepath_exists-Returns path t =
      elim (Bool-cases
        (env.answer t ("[ -e " +s path +s " ] && echo true || echo false") "").success) [
          | inr no_answer ↦ rw no_answer tt
          | inl answered ↦
              let (text, e) =
                texts t ("[ -e " +s path +s " ] && echo true || echo false") "" answered in
              rw answered (rw e tt)
        ]

  set_txqueuelen-Returns :
      (t : Trace) → Returns (λ r t'. r.success ≡ true) (set_txqueuelen env a.net_interface t)
  unfolding set_txqueuelen
  set_txqueuelen-Returns t = ground (arith, env.return_success_succeeds "success")

  check_txqueuelen-Returns :
      (file : String) (t : Trace)
      → Returns (λ r t'. r.success ≡ true) (check_txqueuelen env a.net_interface file t)
  unfolding check_txqueuelen
  check_txqueuelen-Returns file t =
      elim (Bool-cases (env.answer t "head" ("-1 " +s file)).success) [
        | inr no_answer ↦ rw no_answer (set_txqueuelen-Returns _)
        | inl answered ↦
            let (text, e) = texts t "head" ("-1 " +s file) answered in
            elim (Bool-cases (is_positive (atoi (trim_space text)))) [
              | inl positive ↦ rw answered (rw e (rw (positive, Returns) answered))
              | inr other ↦ rw answered (rw e (rw (other, Returns) (set_txqueuelen-Returns _)))
            ]
      ]

  pub pre_handle_txqueue-Returns :
      (t : Trace) → Returns (λ r t'. r.success ≡ true) (pre_handle_txqueue env a.net_interface t)
  unfolding pre_handle_txqueue
  pre_handle_txqueue-Returns t =
      Returns-bind (λ b t'. Unit {0}) (λ r t'. r.success ≡ true) (check_filepath_exists env _ t) _
        (check_filepath_exists-Returns _ t) after_check
    where
      after_check :
          (b : Bool) (t' : Trace)
          → Unit {0}
          → Returns
              (λ r t''. r.success ≡ true)
              ((elim b as (λ x. M Response) [
                | true ↦
                    check_txqueuelen env a.net_interface
                      ("/sys/class/net/" +s a.net_interface +s "/tx_queue_len")
                | false ↦ set_txqueuelen env a.net_interface
              ])
                t')
      after_check true t' _ = check_txqueuelen-Returns _ t'
      after_check false t' _ = set_txqueuelen-Returns t'
