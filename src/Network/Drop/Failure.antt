-- ===== src/Network/Drop/Failure.antt =====
-- A udp rule that `start` of exec/network/network_drop.go fails to add.
use chaosblade_exec_os.Prelude.{
  ◌≡◌, refl, String, List, [], ◌∷◌, Option, none, some, Bool, true, false, arith,
}
use chaosblade_exec_os.Channel.{Env, Response, run, Trace}
use chaosblade_exec_os.Channel.Laws.{Returns, Returns-bind}
use chaosblade_exec_os.Network.Drop.{
  DropArgs, rule_args, net_flows, stop_flows, drop_stop, start_flows,
}

-- Whatever has been called, the command of a rule succeeds, or does not.
abbrev pub Answers : Env → DropArgs → String → String → Bool → Type 0
Answers env a flow protocol b =
    (t : Trace) → (env.answer t "iptables" (rule_args "-A" a flow protocol)).success ≡ b

module _ (env : Env) (a : DropArgs) where
  stop_flows-Returns :
      (flows : List String) (r : Option Response) (t : Trace)
      → Returns (λ r' t'. Unit {0}) (stop_flows env a flows r t)
  unfolding stop_flows
  stop_flows-Returns [] r t = tt
  stop_flows-Returns (flow ∷ rest) r t = ground (
    arith,
    stop_flows-Returns rest
        (some (
          env.answer (run "iptables" (rule_args "-D" a flow "tcp") ∷ t) "iptables"
            (rule_args "-D" a flow "udp")))
        (run "iptables" (rule_args "-D" a flow "udp")
          ∷ run "iptables" (rule_args "-D" a flow "tcp")
          ∷ t),
  )

  -- The loop over both chains: where the udp rule of the first fails and all others are added, the
  -- response is the last one, a success.
  pub start_flows-hides_failure :
      (t : Trace)
      → Answers env a "INPUT" "tcp" true
      → Answers env a "INPUT" "udp" false
      → Answers env a "OUTPUT" "tcp" true
      → Answers env a "OUTPUT" "udp" true
      → Returns
          (λ r t'. (response : Response) × (r ≡ some response) × (response.success ≡ true))
          (start_flows env a ("INPUT" ∷ "OUTPUT" ∷ []) none t)
  unfolding start_flows drop_stop
  start_flows-hides_failure t it iu ot ou =
      simp (it, iu)
        (Returns-bind (λ r' t'. Unit {0}) _ (stop_flows env a (net_flows a.network_traffic) none _)
          _ (stop_flows-Returns (net_flows a.network_traffic) none _)
          λ r' t' _. simp (ot, ou) (_, refl, ou _))
