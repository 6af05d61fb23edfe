-- ===== src/Network/Tc/Total.antt =====
-- On ranges of port numbers the texts of the filters are built, for no mask is computed for ever.
use chaosblade_exec_os.Prelude.{
  ◌≡◌, refl, String, List, [], ◌∷◌, Option, some, str_eq, arith, All, Bool-cases, inl, inr,
}
use chaosblade_exec_os.Ports.Ranges.{PortRange}
use chaosblade_exec_os.Ports.Ranges.Valid.{IsPortRange}
use chaosblade_exec_os.Ports.Masks.{MaskEntry}
use chaosblade_exec_os.Ports.Masks.Cover.{build_mask_for_range-exact}
use chaosblade_exec_os.Network.Tc.Filters.{
  fold_text, for_masks, Target, build_filters, build_target_filter_port_and_ip,
  build_exclude_filter_to_new_band, get_exclude_ip_rules, exclude_rule_to_band,
  exclude_mask_to_band, target_mask, exclude_mask, is_alone, protocol_rule,
}

abbrev pub Built : Option String → Type 0
Built o = (s : String) × (o ≡ some s)

fold_text-pure :
    {A : Type 0} (body : A → String → String) (xs : List A) (args : String)
    → Built (fold_text (λ a text. some (body a text)) xs args)
unfolding fold_text
fold_text-pure body [] args = (args, refl)
fold_text-pure body (a ∷ xs) args = fold_text-pure body xs (body a args)

for_masks-Built :
    (body : MaskEntry → String → String) (r : PortRange) (args : String)
    → IsPortRange r
    → Built (for_masks body r args)
unfolding for_masks
for_masks-Built body r args (pos, le, w) =
    let (masks, built, _) = build_mask_for_range-exact r.first r.last 0 pos le w (omega arith) in
    rw (built, for_masks) (fold_text-pure body masks args)

fold_ranges-Built :
    (body : MaskEntry → String → String) (rs : List PortRange) (args : String)
    → All IsPortRange rs
    → Built (fold_text (for_masks body) rs args)
unfolding fold_text
fold_ranges-Built body [] args h = (args, refl)
fold_ranges-Built body (r ∷ rs) args (h, hs) =
    let (args', here) = for_masks-Built body r args h in
    let (s, later) = fold_ranges-Built body rs args' hs in (s, rw (here, fold_text) later)

build_filters-Built :
    (g : Target) (protocolrule args dev : String)
    → All IsPortRange g.local_port_ranges
    → All IsPortRange g.remote_port_ranges
    → All IsPortRange g.exclude_port_ranges
    → Built (build_filters g protocolrule args dev)
unfolding build_filters
build_filters-Built g protocolrule args dev l r x =
    let (with_local, first) =
      fold_ranges-Built (target_mask dev "sport" protocolrule g.dest_ip_rules) g.local_port_ranges
        args l in
    let (with_remote, second) =
      fold_ranges-Built (target_mask dev "dport" protocolrule g.dest_ip_rules) g.remote_port_ranges
        with_local r in
    rw (first, build_filters)
      (rw (second, build_filters)
        (fold_ranges-Built (exclude_mask dev protocolrule) g.exclude_port_ranges _ x))

pub build_target-Built :
    (g : Target) (args dev protocol : String)
    → All IsPortRange g.local_port_ranges
    → All IsPortRange g.remote_port_ranges
    → All IsPortRange g.exclude_port_ranges
    → Built (build_target_filter_port_and_ip g args dev protocol)
unfolding build_target_filter_port_and_ip
build_target-Built g args dev protocol l r x = elim (Bool-cases (str_eq protocol "")) [
  | inl any ↦ rw any (build_filters-Built g "" args dev l r x)
  | inr one ↦ elim (Bool-cases (is_alone g)) [
    | inl alone ↦ rw (one, alone) (_, refl)
    | inr more ↦ rw (one, more) (build_filters-Built g (protocol_rule protocol) args dev l r x)
  ]
]

pub build_exclude_filter-Built :
    (dev : String) (ranges : List PortRange) (exclude_ip : String)
    → All IsPortRange ranges
    → Built (build_exclude_filter_to_new_band dev ranges exclude_ip)
unfolding build_exclude_filter_to_new_band
build_exclude_filter-Built dev ranges exclude_ip h =
    let (args, first) =
      fold_text-pure (exclude_rule_to_band dev) (get_exclude_ip_rules exclude_ip) "" in
    rw (first, build_exclude_filter_to_new_band)
      (fold_ranges-Built (exclude_mask_to_band dev) ranges args h)
