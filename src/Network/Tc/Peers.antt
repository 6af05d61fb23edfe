-- ===== src/Network/Tc/Peers.antt =====
-- The ports to exclude, in exec/network/tc/network_tc.go: `getPeerPorts`, which reads the output of
-- `ss`, and `getExcludePortRanges`.
use chaosblade_exec_os.Prelude.{
  ℕ, zero, suc, ◌+◌, ◌-◌, ◌^◌, ◌≡◌, refl, String, List, [], ◌∷◌, ◌++◌, Option, none, some, Bool,
  true, false, str_eq,
}
use chaosblade_exec_os.Prelude.Result.{Result, ok, err}
use chaosblade_exec_os.Go.Strings.{◌+s◌, split, split_text, fields, trim_space, contains_char}
use chaosblade_exec_os.Go.Strconv.{ℤ, pos, negsuc, atoi, itoa}
use chaosblade_exec_os.Ports.Ranges.{PortRange, add_port, port_set_to_port_ranges}
use chaosblade_exec_os.Ports.Parse.{
  ParseError, not_an_integer, connector_required, illegal_range, negative,
  parse_integer_list_to_port_ranges,
}
use chaosblade_exec_os.Channel.{
  Env, parameter_illegal, M, pure, ◌>>=◌, run_cmd, is_command_available,
}

-- The 64 bits of an `int`. `ss` prints no negative port.
unfoldable pub int_bits : ℤ → ℕ
int_bits (pos n) = n
int_bits (negsuc n) = 2 ^ 64 - (n + 1)

-- ipPort[1], where the address has two parts
unfoldable pub second_of_two : List String → Option String
second_of_two (ip ∷ port ∷ []) = some port
second_of_two _ = none

-- The port of a socket address: behind the only ":", or behind "]:" for IPv6.
unfoldable pub port_text : String → Option String
unfolding split split_text second_of_two
port_text f = elim (second_of_two (split b':' f)) [
  | some port ↦ some port
  | none ↦ second_of_two (split_text "]:" f)
]

unfoldable pub port_of_field : String → Option ℕ
unfolding contains_char port_text int_bits
port_of_field f = elim (contains_char b':' f) [
  | false ↦ none
  | true ↦ elim (port_text f) [
    | none ↦ none
    | some text ↦ elim (atoi text) [ none ↦ none | some port ↦ some (int_bits port) ]
  ]
]

unfoldable pub ports_of_fields : List String → List ℕ
unfolding port_of_field
ports_of_fields [] = []
ports_of_fields (f ∷ fs) =
    let rest = ports_of_fields fs in
    elim (port_of_field f) [ none ↦ rest | some port ↦ port ∷ rest ]

unfoldable pub ports_of_lines : List String → List ℕ
unfolding ports_of_fields fields
ports_of_lines [] = []
ports_of_lines (line ∷ lines) = ports_of_fields (fields line) ++ ports_of_lines lines

-- The first line is a header.
unfoldable pub ports_of_sockets : List String → List ℕ
unfolding ports_of_lines
ports_of_sockets [] = []
ports_of_sockets (header ∷ lines) = ports_of_lines lines

-- The text that `ss` prints, once trimmed.
unfoldable pub mapping_ports : String → List ℕ
unfolding ports_of_sockets trim_space
mapping_ports result = elim (str_eq (trim_space result) "") [
  | true ↦ []
  | false ↦ ports_of_sockets (split b'\n' (trim_space result))
]

two_sockets :
    mapping_ports "Netid Port\ntcp 10.0.0.1:22 10.0.0.9:55120\ntcp [::1]:80 *:*\n"
    ≡ 22 ∷ 55120 ∷ 80 ∷ []
unfolding mapping_ports atoi
two_sockets = refl

unfoldable pub add_ports : List ℕ → List ℕ → List ℕ
unfolding add_port
add_ports [] set = set
add_ports (p ∷ ps) set = add_ports ps (add_port p set)

module _ (env : Env) where
  unfoldable pub get_peer_ports : String → M (Result String (List ℕ))
  unfolding mapping_ports
  get_peer_ports port = do
    available ← is_command_available env "ss"
    elim available [
      | false ↦ pure (err env.command_ss_not_found_msg)
      | true ↦ do
        response ← run_cmd env "ss" ("-n sport = " +s port +s " or dport = " +s port)
        pure (elim response.success [
          | false ↦ err response.err
          | true ↦ elim response.result [ none ↦ ok [] | some text ↦ ok (mapping_ports text) ]
        ])
    ]

  -- The text of the error that `parseIntegerListToPortRanges` returns.
  unfoldable pub parse_error_text : String → String → ParseError → String
  parse_error_text flag_name value (not_an_integer text) =
      env.sprintf_code parameter_illegal (flag_name ∷ value ∷ env.atoi_error text ∷ [])
  parse_error_text flag_name value connector_required =
      env.sprintf_code parameter_illegal
        (flag_name ∷ value ∷ "Does not conform to the data format, a connector is required" ∷ [])
  parse_error_text flag_name value illegal_range =
      env.sprintf_code parameter_illegal (flag_name ∷ value ∷ "Illegal port range" ∷ [])
  parse_error_text flag_name value (negative text) =
      env.sprintf_code parameter_illegal (flag_name ∷ value ∷ text ∷ [])

  -- The inner loop: the ports from `p` on, with the rounds left.
  unfoldable pub exclude_ports : Bool → ℕ → ℕ → List ℕ → M (Result String (List ℕ))
  unfolding get_peer_ports add_ports add_port
  exclude_ports ignore_peer_ports zero p set = pure (ok set)
  exclude_ports ignore_peer_ports (suc rounds) p set = elim ignore_peer_ports [
    | true ↦ exclude_ports true rounds (p + 1) (add_port p set)
    | false ↦ do
      peer_ports ← get_peer_ports (itoa p)
      elim peer_ports [
        | err e ↦ pure (
            err (
              "get peer ports for "
              +s itoa p
              +s " err, "
              +s e
              +s ", please solve the problem or skip to exclude peer ports by --ignore-peer-port flag"))
        | ok peers ↦ exclude_ports false rounds (p + 1) (add_ports peers (add_port p set))
      ]
  ]

  unfoldable pub exclude_ranges : Bool → List PortRange → List ℕ → M (Result String (List ℕ))
  unfolding exclude_ports
  exclude_ranges ignore_peer_ports [] set = pure (ok set)
  exclude_ranges ignore_peer_ports (r ∷ rs) set = do
    result ← exclude_ports ignore_peer_ports (r.last + 1 - r.first) r.first set
    elim result [ err e ↦ pure (err e) | ok set' ↦ exclude_ranges ignore_peer_ports rs set' ]

  unfoldable pub get_exclude_port_ranges : String → Bool → M (Result String (List PortRange))
  get_exclude_port_ranges exclude_port ignore_peer_ports =
      elim (parse_integer_list_to_port_ranges exclude_port) [
        | err e ↦ pure (err (parse_error_text "exclude-port" exclude_port e))
        | ok ranges ↦ do
          result ← exclude_ranges ignore_peer_ports ranges []
          pure (elim result [ err e ↦ err e | ok set ↦ ok (port_set_to_port_ranges set) ])
      ]
