-- ===== src/Network/Drop/Rules.antt =====
-- The rules that `start` and `stop` of exec/network/network_drop.go add and delete.
use chaosblade_exec_os.Prelude.{
  ℕ, ◌+◌, ◌-◌, ◌≡◌, String, List, [], ◌∷◌, Option, none, some, true, false, str_eq, arith,
  if◌then◌else◌,
}
use chaosblade_exec_os.Go.Strings.{◌+s◌}
use chaosblade_exec_os.Channel.{Env, Response, run, Trace}
use chaosblade_exec_os.Channel.Laws.{Returns, Returns-weaken}
use chaosblade_exec_os.Network.Drop.{
  DropArgs, rule_text, rule_args, net_flows, matches_all, stop_flows, drop_stop, start_flows,
  drop_start,
}

-- How often a rule counts for another text.
abbrev pub same : String → String → ℕ
same rule other = if str_eq rule other then 1 else 0

-- iptables, where every command succeeds: how often a rule is installed after some calls; "-A" adds
-- a rule, "-D" deletes one copy of it.
pub record Firewall (env : Env) : Type 0 where
  pub installed : Trace → String → ℕ
  pub succeeds : (t : Trace) (args : String) → (env.answer t "iptables" args).success ≡ true
  pub appends :
      (t : Trace) (rule other : String)
      → installed (run "iptables" ("-A" +s rule) ∷ t) other ≡ installed t other + same rule other
  pub deletes :
      (t : Trace) (rule other : String)
      → installed (run "iptables" ("-D" +s rule) ∷ t) other ≡ installed t other - same rule other

-- How often the rules of the flows, tcp and udp for each, count for a rule.
abbrev pub copies : DropArgs → List String → String → ℕ
copies a [] other = 0
copies a (flow ∷ rest) other =
    same (rule_text a flow "tcp") other + same (rule_text a flow "udp") other + copies a rest other

-- The response is there and a success.
abbrev pub Succeeded : Option Response → Type 0
Succeeded none = ⊥
Succeeded (some r) = r.success ≡ true

-- The trace has the first number of copies more, or less, than the other.
abbrev pub AddsTo : {env : Env} → Firewall env → (String → ℕ) → Trace → Trace → Type 0
AddsTo wall n t t' = (other : String) → wall.installed t' other ≡ wall.installed t other + n other

abbrev TakesFrom : {env : Env} → Firewall env → (String → ℕ) → Trace → Trace → Type 0
TakesFrom wall n t t' =
    (other : String) → wall.installed t' other ≡ wall.installed t other - n other

module _ (env : Env) (wall : Firewall env) (a : DropArgs) where
  abbrev tcp_then_udp : String → String → Trace → Trace
  tcp_then_udp op flow t =
      run "iptables" (rule_args op a flow "udp") ∷ run "iptables" (rule_args op a flow "tcp") ∷ t

  start_flows-adds :
      (flows : List String) (r : Option Response) (t : Trace)
      → Returns (λ r' t'. AddsTo wall (copies a flows) t t') (start_flows env a flows r t)
  unfolding start_flows
  start_flows-adds [] r t = λ other. omega arith
  start_flows-adds (flow ∷ rest) r t =
      simp
        (
          wall.succeeds t (rule_args "-A" a flow "tcp"),
          wall.succeeds (run "iptables" (rule_args "-A" a flow "tcp") ∷ t)
              (rule_args "-A" a flow "udp"),
        )
        (Returns-weaken (λ r' t'. AddsTo wall (copies a rest) (tcp_then_udp "-A" flow t) t') _
          (start_flows env a rest _ _) (start_flows-adds rest _ _)
          λ r' t' more other. omega (
            arith,
            more other,
            wall.appends t (rule_text a flow "tcp") other,
            wall.appends (run "iptables" (rule_args "-A" a flow "tcp") ∷ t) (rule_text a flow "udp")
                other,
          ))

  stop_flows-takes :
      (flows : List String) (r : Option Response) (t : Trace)
      → Returns (λ r' t'. TakesFrom wall (copies a flows) t t') (stop_flows env a flows r t)
  unfolding stop_flows
  stop_flows-takes [] r t = λ other. omega arith
  stop_flows-takes (flow ∷ rest) r t =
      simp
        (
          wall.succeeds t (rule_args "-D" a flow "tcp"),
          wall.succeeds (run "iptables" (rule_args "-D" a flow "tcp") ∷ t)
              (rule_args "-D" a flow "udp"),
        )
        (Returns-weaken (λ r' t'. TakesFrom wall (copies a rest) (tcp_then_udp "-D" flow t) t') _
          (stop_flows env a rest _ _) (stop_flows-takes rest _ _)
          λ r' t' more other. omega (
            arith,
            more other,
            wall.deletes t (rule_text a flow "tcp") other,
            wall.deletes (run "iptables" (rule_args "-D" a flow "tcp") ∷ t) (rule_text a flow "udp")
                other,
          ))

  -- Where every command succeeds and some flag is given, `start` returns, and it adds exactly the
  -- tcp and udp rules of the flows; `stop` after it, whatever has been called, deletes them, so
  -- that all rules are installed as often as before.
  pub drop_start-drop_stop :
      (t : Trace)
      → matches_all a ≡ false
      → Returns
          (λ r t'.
            AddsTo wall (copies a (net_flows a.network_traffic)) t t'
            × Returns
                (λ r' t''. (other : String) → wall.installed t'' other ≡ wall.installed t other)
                (drop_stop env a t'))
          (drop_start env a t)
  unfolding drop_start drop_stop
  drop_start-drop_stop t given =
      rw (given, Returns)
        (Returns-weaken (λ r t'. AddsTo wall (copies a (net_flows a.network_traffic)) t t') _
          (start_flows env a (net_flows a.network_traffic) none t) (start_flows-adds _ _ _)
          λ r t' more. (
            more,
            Returns-weaken
                (λ r' t''. TakesFrom wall (copies a (net_flows a.network_traffic)) t' t'') _
                (stop_flows env a (net_flows a.network_traffic) none t') (stop_flows-takes _ _ _)
                λ r' t'' less other. omega (arith, less other, more other),
          ))
