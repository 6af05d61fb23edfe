-- ===== src/Network/Tc/Hang.antt =====
-- `startNet` of exec/network/tc/network_tc.go where a local port is 0.
use chaosblade_exec_os.Prelude.{
  ℕ, zero, suc, ◌+◌, ◌-◌, ◌≡◌, refl, String, List, ◌∷◌, none, true, false, str_eq, arith,
  Bool-cases, inl, inr, leb,
}
use chaosblade_exec_os.Ports.Ranges.{PortRange}
use chaosblade_exec_os.Ports.Masks.{MaskEntry, masks_from, build_mask_for_range}
use chaosblade_exec_os.Channel.{Env, run, Trace, hung}
use chaosblade_exec_os.Go.Strings.{◌+s◌}
use chaosblade_exec_os.Network.Tc.Filters.{
  fold_text, for_masks, target_mask, Target, build_filters, build_target_filter_port_and_ip,
  is_alone, is_nil, protocol_rule,
}
use chaosblade_exec_os.Network.Tc.Queue.{add_qdisc_for_dl, execute_target_port_and_ip_with_exclude}
use chaosblade_exec_os.Network.Tc.Start.{NetArgs, PortRanges, target_of, add_rules}

leb-zero : (end : ℕ) → leb 0 end ≡ true
leb-zero end = ground arith

masks_from-zero : (fuel end : ℕ) → masks_from fuel 0 end ≡ none
unfolding masks_from
masks_from-zero zero end = refl
masks_from-zero (suc fuel) end = rw (leb-zero end, masks_from) refl

build_mask_for_range-zero : (end : ℕ) → build_mask_for_range 0 end ≡ none
unfolding build_mask_for_range
build_mask_for_range-zero end = masks_from-zero (end + 2 - 0) end

-- A list of ranges that begins with port 0.
abbrev pub zero_first : ℕ → List PortRange → List PortRange
zero_first last rest = record { first = 0; last = last } ∷ rest

for_masks-zero :
    (body : MaskEntry → String → String) (last : ℕ) (args : String)
    → for_masks body (record { first = 0; last = last }) args ≡ none
unfolding for_masks
for_masks-zero body last args = rw (build_mask_for_range-zero last, for_masks) refl

fold-zero :
    (body : MaskEntry → String → String) (last : ℕ) (rest : List PortRange) (args : String)
    → fold_text (for_masks body) (zero_first last rest) args ≡ none
unfolding fold_text
fold-zero body last rest args = rw (for_masks-zero body last args, fold_text) refl

build_filters-zero :
    (g : Target) (protocolrule args dev : String) (last : ℕ) (rest : List PortRange)
    → g.local_port_ranges ≡ zero_first last rest
    → build_filters g protocolrule args dev ≡ none
unfolding build_filters
build_filters-zero g protocolrule args dev last rest e =
    rw (e, build_filters)
      (rw (fold-zero (target_mask dev "sport" protocolrule g.dest_ip_rules) last rest args) refl)

is_alone-zero :
    (g : Target) (last : ℕ) (rest : List PortRange)
    → g.local_port_ranges ≡ zero_first last rest
    → is_alone g ≡ false
unfolding is_alone is_nil
is_alone-zero g last rest e = rw e refl

build_target-zero :
    (g : Target) (args dev protocol : String) (last : ℕ) (rest : List PortRange)
    → g.local_port_ranges ≡ zero_first last rest
    → build_target_filter_port_and_ip g args dev protocol ≡ none
unfolding build_target_filter_port_and_ip
build_target-zero g args dev protocol last rest e = elim (Bool-cases (str_eq protocol "")) [
  | inl any ↦ rw any (build_filters-zero g "" args dev last rest e)
  | inr named ↦ rw named (
      rw (is_alone-zero g last rest e)
        (build_filters-zero g (protocol_rule protocol) args dev last rest e))
]

-- Where a local port is given and the first range of local ports begins with 0, the rest of
-- `startNet` after the forced stop does not end, and it has already added the bands to the device.
pub add_rules-hangs :
    (env : Env) (a : NetArgs) (ranges : PortRanges) (exclude_ip protocol : String) (last : ℕ)
    (rest : List PortRange) (t : Trace)
    → str_eq a.local_port "" ≡ false
    → ranges.local ≡ zero_first last rest
    → add_rules env a ranges exclude_ip protocol t
      ≡ hung (run "tc" ("qdisc add dev " +s a.net_interface +s " root handle 1: prio bands 4") ∷ t)
unfolding add_rules add_qdisc_for_dl execute_target_port_and_ip_with_exclude target_of
add_rules-hangs env a ranges exclude_ip protocol last rest t given e = rw given (
    rw
      (build_target-zero (target_of a ranges exclude_ip)
        ("qdisc add dev " +s a.net_interface +s " parent 1:4 handle 40: " +s a.class_rule)
        a.net_interface protocol last rest e)
      refl)
