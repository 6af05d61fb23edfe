-- ===== src/Network/Tc/Actions.antt =====
-- The executors of exec/network/tc: network_delay.go, network_loss.go, network_duplicate.go,
-- network_corrupt.go and network_reorder.go.
use chaosblade_exec_os.Prelude.{
  String, List, [], ◌∷◌, none, some, true, false, str_eq, if◌then◌else◌,
}
use chaosblade_exec_os.Go.Strings.{◌+s◌}
use chaosblade_exec_os.Channel.{
  Env, Response, Context, Flags, flag, flag_is_true, parameter_less, M, pure, ◌>>=◌,
  is_all_commands_available,
}
use chaosblade_exec_os.Network.Tc.Queue.{stop_net}
use chaosblade_exec_os.Network.Tc.Start.{NetArgs, start_net}

-- The flags of commFlags that every executor hands to `startNet`.
unfoldable pub net_args : Flags → String → String → NetArgs
unfolding flag flag_is_true
net_args flags net_interface class_rule = record {
  net_interface = net_interface;
  class_rule = class_rule;
  local_port = flag flags "local-port";
  remote_port = flag flags "remote-port";
  exclude_port = flag flags "exclude-port";
  dest_ip = flag flags "destination-ip";
  exclude_ip = flag flags "exclude-ip";
  force = flag_is_true flags "force";
  ignore_peer_ports = flag_is_true flags "ignore-peer-port";
  protocol = flag flags "protocol";
}

-- A value, or its default where the flag is empty.
unfoldable pub or_default : String → String → String
or_default value default = if str_eq value "" then default else value

-- The class rules of the `start` methods.
unfoldable pub delay_rule : String → String → String
delay_rule time offset = "netem delay " +s time +s "ms " +s offset +s "ms"

unfoldable pub loss_rule : String → String
loss_rule percent = "netem loss " +s percent +s "%"

unfoldable pub duplicate_rule : String → String
duplicate_rule percent = "netem duplicate " +s percent +s "%"

unfoldable pub corrupt_rule : String → String
corrupt_rule percent = "netem corrupt " +s percent +s "%"

unfoldable pub reorder_rule : String → String → String → String → String
reorder_rule percent correlation gap time =
    let rule = "netem reorder " +s percent +s "% " +s correlation +s "%" in
    (if str_eq gap "" then rule else rule +s " gap " +s gap) +s " delay " +s time +s "ms"

module _ (env : Env) where
  -- `response, ok := IsAllCommandsAvailable(ctx, commands); !ok`, and what follows otherwise
  abbrev pub with_commands : List String → M Response → M Response
  with_commands names body = do
    missing ← is_all_commands_available env names
    elim missing [ some response ↦ pure response | none ↦ body ]

  -- The response for a flag that is missing.
  abbrev pub less : String → M Response
  less name = pure (env.fail_with_flags parameter_less (name ∷ []))

  -- Executors that want a network interface: without one nothing is done, and a destroyed
  -- experiment stops its queues.
  unfoldable pub on_interface : Context → Flags → (String → M Response) → M Response
  unfolding flag
  on_interface ctx flags start = elim (str_eq (flag flags "interface") "") [
    | true ↦ less "interface"
    | false ↦ elim ctx.destroy [
      | true ↦ stop_net env (flag flags "interface")
      | false ↦ start (flag flags "interface")
    ]
  ]

  unfoldable pub delay_exec : Context → Flags → M Response
  unfolding on_interface flag net_args or_default delay_rule
  delay_exec ctx flags = with_commands ("tc" ∷ "head" ∷ []) (
      on_interface ctx flags λ net_interface. elim (str_eq (flag flags "time") "") [
        | true ↦ less "time"
        | false ↦ start_net env (
            net_args flags net_interface
              (delay_rule (flag flags "time") (or_default (flag flags "offset") "0")))
      ])

  -- A missing percentage of `duplicate` is reported as a missing interface.
  unfoldable pub duplicate_exec : Context → Flags → M Response
  unfolding on_interface flag net_args duplicate_rule
  duplicate_exec ctx flags = with_commands ("tc" ∷ "head" ∷ []) (
      on_interface ctx flags λ net_interface. elim (str_eq (flag flags "percent") "") [
        | true ↦ less "interface"
        | false ↦
            start_net env (net_args flags net_interface (duplicate_rule (flag flags "percent")))
      ])

  unfoldable pub corrupt_exec : Context → Flags → M Response
  unfolding on_interface flag net_args corrupt_rule
  corrupt_exec ctx flags = with_commands ("tc" ∷ "head" ∷ []) (
      on_interface ctx flags λ net_interface. elim (str_eq (flag flags "percent") "") [
        | true ↦ less "percent"
        | false ↦ start_net env (net_args flags net_interface (corrupt_rule (flag flags "percent")))
      ])

  unfoldable pub reorder_exec : Context → Flags → M Response
  unfolding on_interface flag net_args or_default reorder_rule
  reorder_exec ctx flags = with_commands ("tc" ∷ "head" ∷ []) (
      on_interface ctx flags λ net_interface. elim (str_eq (flag flags "percent") "") [
        | true ↦ less "percent"
        | false ↦ start_net env (
            net_args flags net_interface (
              reorder_rule (flag flags "percent") (or_default (flag flags "correlation") "0")
                (flag flags "gap") (or_default (flag flags "time") "10")))
      ])

  -- `loss` on a device, "" where the flag `interface` is no key of the map.
  unfoldable pub loss_on : Context → Flags → String → M Response
  unfolding flag net_args loss_rule
  loss_on ctx flags dev = elim ctx.destroy [
    | true ↦ stop_net env dev
    | false ↦ elim (str_eq (flag flags "percent") "") [
      | true ↦ less "percent"
      | false ↦ start_net env (net_args flags dev (loss_rule (flag flags "percent")))
    ]
  ]

  unfoldable pub loss_exec : Context → Flags → M Response
  unfolding loss_on
  loss_exec ctx flags = with_commands ("tc" ∷ "head" ∷ []) (elim (flags "interface") [
    | none ↦ loss_on ctx flags ""
    | some net_interface ↦ elim (str_eq net_interface "") [
      | true ↦ less "interface"
      | false ↦ loss_on ctx flags net_interface
    ]
  ])
