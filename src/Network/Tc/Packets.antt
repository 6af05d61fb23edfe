-- ===== src/Network/Tc/Packets.antt =====
-- What the filters of `buildTargetFilterPortAndIp` in exec/network/tc/network_tc.go do to a packet:
-- the commands as data, the reading of them by `tc`, and the packets that an experiment is meant
-- for.
pub mod Text
pub mod Selection
pub mod Bands
pub mod Commands
pub mod Refinement
use chaosblade_exec_os.Prelude.{
  ℕ, String, List, [], ◌∷◌, ◌++◌, Option, none, some, Bool, true, false, ◌&&◌, ◌||◌, str_eq, leb,
  if◌then◌else◌, map,
}
use chaosblade_exec_os.Ports.Ranges.{PortRange}
use chaosblade_exec_os.Ports.Masks.{MaskEntry, build_mask_for_range}
use chaosblade_exec_os.Ports.Masks.Cover.{selects}
use chaosblade_exec_os.Network.Tc.Filters.{
  Target, target_rule_mask, target_only_mask, target_rule, exclude_rule, exclude_mask, is_nil,
}

-- A filter command: a side is "sport" or "dport". The last is a pair of commands, one for each side.
pub data Filter : Type 0 where
  to_rule_and_port : String → String → MaskEntry → Filter
  to_port : String → MaskEntry → Filter
  to_rule : String → Filter
  not_rule : String → Filter
  not_port : MaskEntry → Filter

-- The filters of an experiment, in the order of the source; `none` as there.
unfoldable pub for_mask : String → List String → MaskEntry → List Filter
for_mask side [] mask = to_port side mask ∷ []
for_mask side (rule ∷ rules) mask = map (λ r. to_rule_and_port r side mask) (rule ∷ rules)

unfoldable pub for_each_mask : (MaskEntry → List Filter) → List MaskEntry → List Filter
for_each_mask make [] = []
for_each_mask make (mask ∷ masks) = make mask ++ for_each_mask make masks

unfoldable pub for_ranges : (MaskEntry → List Filter) → List PortRange → Option (List Filter)
unfolding for_each_mask
for_ranges make [] = some []
for_ranges make (r ∷ rest) =
    elim (build_mask_for_range r.first r.last) as (λ x. Option (List Filter)) [
      | none ↦ none
      | some masks ↦ elim (for_ranges make rest) as (λ x. Option (List Filter)) [
        | none ↦ none
        | some filters ↦ some (for_each_mask make masks ++ filters)
      ]
    ]

-- Only destinations are given.
unfoldable pub only_rules : Target → List Filter
unfolding is_nil
only_rules g =
    if is_nil g.local_port_ranges && is_nil g.remote_port_ranges
    then map to_rule g.dest_ip_rules
    else []

unfoldable pub filters_of : Target → Option (List Filter)
unfolding for_ranges for_mask only_rules
filters_of g =
    elim (for_ranges (for_mask "sport" g.dest_ip_rules) g.local_port_ranges)
      as (λ x. Option (List Filter)) [
        | none ↦ none
        | some local ↦
            elim (for_ranges (for_mask "dport" g.dest_ip_rules) g.remote_port_ranges)
              as (λ x. Option (List Filter)) [
                | none ↦ none
                | some remote ↦
                    elim (for_ranges (λ mask. not_port mask ∷ []) g.exclude_port_ranges)
                      as (λ x. Option (List Filter)) [
                        | none ↦ none
                        | some excluded ↦ some (
                            local
                            ++ (remote
                                ++ (only_rules g ++ (map not_rule g.exclude_ip_rules ++ excluded))))
                      ]
              ]
      ]

-- The text of a filter behind a text.
unfoldable pub render : String → String → Filter → String → String
unfolding target_rule_mask target_only_mask target_rule exclude_rule exclude_mask
render dev protocolrule (to_rule_and_port rule side mask) args =
    target_rule_mask dev side protocolrule mask rule args
render dev protocolrule (to_port side mask) args = target_only_mask dev side protocolrule mask args
render dev protocolrule (to_rule rule) args = target_rule dev protocolrule rule args
render dev protocolrule (not_rule rule) args = exclude_rule dev protocolrule rule args
render dev protocolrule (not_port mask) args = exclude_mask dev protocolrule mask args

unfoldable pub render_all : String → String → List Filter → String → String
unfolding render
render_all dev protocolrule [] args = args
render_all dev protocolrule (f ∷ filters) args =
    render_all dev protocolrule filters (render dev protocolrule f args)

-- What a packet is to the filters: its ports, which rules on addresses it satisfies, and whether it
-- is of the protocol.
pub record Packet : Type 0 where
  pub sport : ℕ
  pub dport : ℕ
  pub satisfies : String → Bool
  pub of_protocol : Bool

unfoldable pub port_at : String → Packet → ℕ
port_at side p = if str_eq side "sport" then p.sport else p.dport

-- The packet matches a filter that sends it to the band of the experiment, or past it.
unfoldable pub is_sent : Packet → Filter → Bool
unfolding selects port_at
is_sent p (to_rule_and_port rule side mask) =
    p.of_protocol && (selects mask (port_at side p) && p.satisfies rule)
is_sent p (to_port side mask) = p.of_protocol && selects mask (port_at side p)
is_sent p (to_rule rule) = p.of_protocol && p.satisfies rule
is_sent p (not_rule rule) = false
is_sent p (not_port mask) = false

unfoldable pub is_spared : Packet → Filter → Bool
unfolding selects
is_spared p (to_rule_and_port rule side mask) = false
is_spared p (to_port side mask) = false
is_spared p (to_rule rule) = false
is_spared p (not_rule rule) = p.of_protocol && p.satisfies rule
is_spared p (not_port mask) = p.of_protocol && (selects mask p.dport || selects mask p.sport)

unfoldable pub any_of {ℓ} : {A : Type ℓ} → (A → Bool) → List A → Bool
any_of test [] = false
any_of test (x ∷ xs) = test x || any_of test xs

-- The filters with prio 1, which send to 1:3, come before those with prio 4, which send to 1:4.
-- `none`: no filter matches.
unfoldable pub band_of : Packet → List Filter → Option String
unfolding any_of is_sent is_spared
band_of p filters =
    if any_of (is_spared p) filters
    then some "1:3"
    else if any_of (is_sent p) filters
    then some "1:4"
    else none

-- The packets that are meant: without ports those to a destination; with ports those from a local
-- or to a remote port, and to a destination if one is given.
unfoldable pub in_ranges : ℕ → List PortRange → Bool
unfolding any_of
in_ranges port ranges = any_of (λ r. leb r.first port && leb port r.last) ranges

unfoldable pub is_meant : Target → Packet → Bool
unfolding in_ranges any_of is_nil
is_meant g p =
    p.of_protocol
    && (if is_nil g.local_port_ranges && is_nil g.remote_port_ranges
        then any_of p.satisfies g.dest_ip_rules
        else (in_ranges p.sport g.local_port_ranges || in_ranges p.dport g.remote_port_ranges)
          && (is_nil g.dest_ip_rules || any_of p.satisfies g.dest_ip_rules))

unfoldable pub is_excluded : Target → Packet → Bool
unfolding in_ranges any_of
is_excluded g p =
    p.of_protocol
    && (any_of p.satisfies g.exclude_ip_rules
        || (in_ranges p.dport g.exclude_port_ranges || in_ranges p.sport g.exclude_port_ranges))

unfoldable pub intended_band : Target → Packet → Option String
unfolding is_excluded is_meant
intended_band g p =
    if is_excluded g p then some "1:3" else if is_meant g p then some "1:4" else none
