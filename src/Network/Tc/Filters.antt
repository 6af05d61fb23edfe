-- ===== src/Network/Tc/Filters.antt =====
-- The texts of `tc` commands in exec/network/tc/network_tc.go: the functions that build them.
use chaosblade_exec_os.Prelude.{
  ◌&&◌, String, List, [], ◌∷◌, Option, none, some, Bool, true, false, str_eq, if◌then◌else◌,
}
use chaosblade_exec_os.Go.Strings.{◌+s◌, split, trim_space, is_empty}
use chaosblade_exec_os.Go.Strconv.{itoa, hex}
use chaosblade_exec_os.Ports.Ranges.{PortRange}
use chaosblade_exec_os.Ports.Masks.{MaskEntry, build_mask_for_range}

-- The loop of `getIpRules`.
unfoldable pub ip_rules_of : List String → List String
unfolding trim_space is_empty
ip_rules_of [] = []
ip_rules_of (ip ∷ ips) =
    let rest = ip_rules_of ips in
    if is_empty (trim_space ip) then rest else ("match ip dst " +s ip) ∷ rest

unfoldable pub get_ip_rules : String → List String
unfolding ip_rules_of split
get_ip_rules target_ip =
    if str_eq target_ip "" then [] else ip_rules_of (split b',' (trim_space target_ip))

-- The loop of `getExcludeIpRules`.
unfoldable pub exclude_ip_rules_of : List String → List String
unfolding trim_space is_empty
exclude_ip_rules_of [] = []
exclude_ip_rules_of (ip ∷ ips) =
    let rest = exclude_ip_rules_of ips in
    if is_empty (trim_space ip)
    then rest
    else ("match ip src " +s ip) ∷ ("match ip dst " +s ip) ∷ rest

unfoldable pub get_exclude_ip_rules : String → List String
unfolding exclude_ip_rules_of split
get_exclude_ip_rules exclude_ip =
    if str_eq exclude_ip "" then [] else exclude_ip_rules_of (split b',' (trim_space exclude_ip))

-- A loop that appends to a text, where a round may not end.
unfoldable pub fold_text {ℓ} :
    {A : Type ℓ} → (A → String → Option String) → List A → String → Option String
fold_text round [] args = some args
fold_text round (a ∷ rest) args = elim (round a args) [
  | none ↦ none
  | some args' ↦ fold_text round rest args'
]

-- The loop over the masks of a range.
unfoldable pub for_masks : (MaskEntry → String → String) → PortRange → String → Option String
unfolding fold_text build_mask_for_range
for_masks body r args = elim (build_mask_for_range r.first r.last) [
  | none ↦ none
  | some masks ↦ fold_text (λ mask text. some (body mask text)) masks args
]

-- The parts of a filter command before and after its rules; the white space is the source's.
unfoldable pub filter_head : String → String → String → String
filter_head space dev prio =
    " && \\\n" +s space +s "tc filter add dev " +s dev +s " parent 1: prio " +s prio
    +s " protocol ip u32 "

abbrev pub port_match : String → MaskEntry → String
port_match side mask = "match ip " +s side +s " " +s itoa mask.value +s " " +s hex mask.mask

abbrev spaces_16 : String
spaces_16 = "                "

abbrev spaces_20 : String
spaces_20 = "                    "

abbrev spaces_24 : String
spaces_24 = "                        "

abbrev spaces_28 : String
spaces_28 = "                            "

-- The loop body of `buildExcludeFilterToNewBand` for an ip rule, and for a mask.
unfoldable pub exclude_rule_to_band : String → String → String → String
unfolding filter_head
exclude_rule_to_band dev rule args = args +s filter_head "\t\t\t" dev "1" +s rule +s " flowid 1:4"

unfoldable pub exclude_mask_to_band : String → MaskEntry → String → String
unfolding filter_head
exclude_mask_to_band dev mask args =
    args
    +s filter_head spaces_16 dev "1"
    +s port_match "dport" mask
    +s " flowid 1:4"
    +s filter_head spaces_16 dev "1"
    +s port_match "sport" mask
    +s " flowid 1:4"

unfoldable pub build_exclude_filter_to_new_band : String → List PortRange → String → Option String
unfolding exclude_rule_to_band exclude_mask_to_band fold_text for_masks get_exclude_ip_rules
build_exclude_filter_to_new_band dev exclude_port_ranges exclude_ip =
    elim (fold_text (λ rule args. some (exclude_rule_to_band dev rule args))
      (get_exclude_ip_rules exclude_ip) "") [
        | none ↦ none
        | some args ↦ fold_text (for_masks (exclude_mask_to_band dev)) exclude_port_ranges args
      ]

unfoldable pub build_netem_to_default_bands_args : String → String → String
build_netem_to_default_bands_args dev class_rule =
    "qdisc add dev " +s dev +s " parent 1:1 " +s class_rule +s " && \\\n\t\t\ttc qdisc add dev "
    +s dev +s " parent 1:2 " +s class_rule +s " && \\\n\t\t\ttc qdisc add dev " +s dev
    +s " parent 1:3 " +s class_rule +s " && \\\n\t\t\ttc qdisc add dev " +s dev
    +s " parent 1:4 handle 40: prio"

-- The loop bodies of `buildTargetFilterPortAndIp` for a mask of local ("sport") or remote ("dport")
-- ports, for a destination and where no destination is given.
unfoldable pub target_rule_mask : String → String → String → MaskEntry → String → String → String
unfolding filter_head
target_rule_mask dev side protocolrule mask rule args =
    args
    +s filter_head spaces_28 dev "4"
    +s rule
    +s " "
    +s port_match side mask
    +s " "
    +s protocolrule
    +s " flowid 1:4"

unfoldable pub target_only_mask : String → String → String → MaskEntry → String → String
unfolding filter_head
target_only_mask dev side protocolrule mask args =
    args
    +s filter_head spaces_24 dev "4"
    +s port_match side mask
    +s " "
    +s protocolrule
    +s " flowid 1:4"

-- A loop that appends to a text.
unfoldable pub append_each : (String → String → String) → List String → String → String
append_each body [] args = args
append_each body (rule ∷ rules) args = append_each body rules (body rule args)

unfoldable pub target_mask : String → String → String → List String → MaskEntry → String → String
unfolding append_each target_rule_mask target_only_mask
target_mask dev side protocolrule [] mask args = target_only_mask dev side protocolrule mask args
target_mask dev side protocolrule (rule ∷ rules) mask args =
    append_each (target_rule_mask dev side protocolrule mask) (rule ∷ rules) args

-- The loop bodies for a destination without ports, an excluded ip and an excluded mask.
unfoldable pub target_rule : String → String → String → String → String
unfolding filter_head
target_rule dev protocolrule rule args =
    args +s filter_head "\t\t\t\t" dev "4" +s rule +s " " +s protocolrule +s " flowid 1:4"

unfoldable pub exclude_rule : String → String → String → String → String
unfolding filter_head
exclude_rule dev protocolrule rule args =
    args +s filter_head "\t\t\t\t" dev "1" +s rule +s " " +s protocolrule +s " flowid 1:3"

unfoldable pub exclude_mask : String → String → MaskEntry → String → String
unfolding filter_head
exclude_mask dev protocolrule mask args =
    args
    +s filter_head spaces_20 dev "1"
    +s port_match "dport" mask
    +s " "
    +s protocolrule
    +s " flowid 1:3"
    +s filter_head spaces_20 dev "1"
    +s port_match "sport" mask
    +s " "
    +s protocolrule
    +s " flowid 1:3"

-- protocolrule
unfoldable pub protocol_rule : String → String
protocol_rule protocol =
    " \\\n                                         match ip protocol " +s protocol +s " 0xff"

-- The ports, destinations and exclusions of an experiment.
pub record Target : Type 0 where
  pub local_port_ranges : List PortRange
  pub remote_port_ranges : List PortRange
  pub dest_ip_rules : List String
  pub exclude_port_ranges : List PortRange
  pub exclude_ip_rules : List String

unfoldable pub is_nil {ℓ} : {A : Type ℓ} → List A → Bool
is_nil [] = true
is_nil (x ∷ xs) = false

-- What follows the test for an experiment on a protocol alone.
unfoldable pub build_filters : Target → String → String → String → Option String
unfolding fold_text for_masks target_mask target_rule exclude_rule exclude_mask is_nil append_each
build_filters g protocolrule args dev =
    elim (fold_text (for_masks (target_mask dev "sport" protocolrule g.dest_ip_rules))
      g.local_port_ranges args) [
        | none ↦ none
        | some with_local ↦
            elim (fold_text (for_masks (target_mask dev "dport" protocolrule g.dest_ip_rules))
              g.remote_port_ranges with_local) [
                | none ↦ none
                | some with_remote ↦
                    let with_rules =
                      if is_nil g.local_port_ranges && is_nil g.remote_port_ranges
                      then append_each (target_rule dev protocolrule) g.dest_ip_rules with_remote
                      else with_remote in
                    let with_exclusions =
                      append_each (exclude_rule dev protocolrule) g.exclude_ip_rules with_rules in
                    fold_text (for_masks (exclude_mask dev protocolrule)) g.exclude_port_ranges
                      with_exclusions
              ]
      ]

-- Nothing is given but the protocol.
unfoldable pub is_alone : Target → Bool
unfolding is_nil
is_alone g =
    is_nil g.local_port_ranges
    && is_nil g.remote_port_ranges
    && is_nil g.dest_ip_rules
    && is_nil g.exclude_port_ranges
    && is_nil g.exclude_ip_rules

-- `none`: a mask is computed for ever.
unfoldable pub build_target_filter_port_and_ip : Target → String → String → String → Option String
unfolding build_filters is_alone filter_head protocol_rule
build_target_filter_port_and_ip g args dev protocol =
    if str_eq protocol ""
    then build_filters g "" args dev
    else if is_alone g
    then some (
        args
        +s filter_head spaces_16 dev "4"
        +s "match ip protocol "
        +s protocol
        +s " 0xff flowid 1:4")
    else build_filters g (protocol_rule protocol) args dev
