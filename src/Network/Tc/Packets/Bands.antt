-- ===== src/Network/Tc/Packets/Bands.antt =====
-- The filters of an experiment send the packets that are meant to the band of the experiment.
use chaosblade_exec_os.Prelude.{
  ℕ, ◌≡◌, ◌<◌, refl, ◌∙◌, ap, ap₂, String, List, [], ◌∷◌, ◌++◌, map, none, some, Bool, true, false,
  ◌&&◌, ◌||◌, if◌then◌else◌, All, Bool-cases, inl, inr,
}
use chaosblade_exec_os.Ports.Ranges.{PortRange}
use chaosblade_exec_os.Ports.Ranges.Valid.{IsPortRange}
use chaosblade_exec_os.Ports.Masks.{MaskEntry}
use chaosblade_exec_os.Ports.Masks.Cover.{selects}
use chaosblade_exec_os.Network.Tc.Filters.{Target, is_nil}
use chaosblade_exec_os.Network.Tc.Packets.{
  Filter, to_rule_and_port, to_rule, not_rule, not_port, for_mask, only_rules, filters_of, Packet,
  port_at, is_sent, is_spared, any_of, band_of, in_ranges, is_meant, is_excluded, intended_band,
}
use chaosblade_exec_os.Network.Tc.Packets.Selection.{
  any_of-++, any_of-map, any_of-and, any_of-never, ranges-Tests,
}

module _ (g : Target) (p : Packet) where
  -- The condition of a port's filter besides the port.
  abbrev reached : Bool
  reached = p.of_protocol && (is_nil g.dest_ip_rules || any_of p.satisfies g.dest_ip_rules)

  alone : (o s : Bool) → ((o && s) || false) ≡ ((o && true) && (s || s))
  alone true true = refl
  alone true false = refl
  alone false s = refl

  joint : (o s a : Bool) → (o && (s && a)) ≡ ((o && a) && (s || s))
  joint true true true = refl
  joint true true false = refl
  joint true false true = refl
  joint true false false = refl
  joint false s a = refl

  mask-sent :
      (side : String) (rules : List String) (mask : MaskEntry)
      → any_of (is_sent p) (for_mask side rules mask) ≡ (
          (p.of_protocol && (is_nil rules || any_of p.satisfies rules))
          && (selects mask (port_at side p) || selects mask (port_at side p)))
  unfolding for_mask is_sent is_nil
  mask-sent side [] mask = unfold any_of in alone p.of_protocol (selects mask (port_at side p))
  mask-sent side (rule ∷ rules) mask =
      any_of-map (is_sent p) (λ r. to_rule_and_port r side mask) (rule ∷ rules)
      ∙ any_of-and (λ r. selects mask (port_at side p) && p.satisfies r) p.of_protocol
          (rule ∷ rules)
      ∙ ap (λ b. p.of_protocol && b)
          (any_of-and p.satisfies (selects mask (port_at side p)) (rule ∷ rules))
      ∙ joint p.of_protocol (selects mask (port_at side p)) (any_of p.satisfies (rule ∷ rules))

  mask-not_spared :
      (side : String) (rules : List String) (mask : MaskEntry)
      → any_of (is_spared p) (for_mask side rules mask) ≡ false
  unfolding for_mask is_spared
  mask-not_spared side [] mask = unfold any_of in refl
  mask-not_spared side (rule ∷ rules) mask =
      any_of-map (is_spared p) (λ r. to_rule_and_port r side mask) (rule ∷ rules)
      ∙ any_of-never (λ r. false) (rule ∷ rules) λ r. refl

  only_rules-sent : any_of (is_sent p) (only_rules g) ≡ (
      if is_nil g.local_port_ranges && is_nil g.remote_port_ranges
      then p.of_protocol && any_of p.satisfies g.dest_ip_rules
      else false)
  unfolding only_rules is_sent
  only_rules-sent = elim (Bool-cases (is_nil g.local_port_ranges && is_nil g.remote_port_ranges)) [
    | inl no_ports ↦ rw no_ports (
        any_of-map (is_sent p) to_rule g.dest_ip_rules
        ∙ any_of-and p.satisfies p.of_protocol g.dest_ip_rules)
    | inr ports ↦ rw ports (unfold any_of in refl)
  ]

  only_rules-not_spared : any_of (is_spared p) (only_rules g) ≡ false
  unfolding only_rules is_spared
  only_rules-not_spared =
      elim (Bool-cases (is_nil g.local_port_ranges && is_nil g.remote_port_ranges)) [
        | inl no_ports ↦ rw no_ports (
            any_of-map (is_spared p) to_rule g.dest_ip_rules
            ∙ any_of-never (λ r. false) g.dest_ip_rules λ r. refl)
        | inr ports ↦ rw ports (unfold any_of in refl)
      ]

  not_rules-not_sent : any_of (is_sent p) (map not_rule g.exclude_ip_rules) ≡ false
  unfolding is_sent
  not_rules-not_sent =
      any_of-map (is_sent p) not_rule g.exclude_ip_rules
      ∙ any_of-never (λ r. false) g.exclude_ip_rules λ r. refl

  not_rules-spared :
      any_of (is_spared p) (map not_rule g.exclude_ip_rules)
      ≡ (p.of_protocol && any_of p.satisfies g.exclude_ip_rules)
  unfolding is_spared
  not_rules-spared =
      any_of-map (is_spared p) not_rule g.exclude_ip_rules
      ∙ any_of-and p.satisfies p.of_protocol g.exclude_ip_rules

  in_ranges-nil :
      (q : ℕ) (ranges : List PortRange) → is_nil ranges ≡ true → in_ranges q ranges ≡ false
  unfolding in_ranges is_nil any_of
  in_ranges-nil q [] empty = refl
  in_ranges-nil q (r ∷ rest) empty = cc

  -- The parts of the list of filters.
  any_of-parts :
      (test : Filter → Bool) (a b c d e : List Filter)
      → any_of test (a ++ (b ++ (c ++ (d ++ e))))
        ≡ (any_of test a || (any_of test b || (any_of test c || (any_of test d || any_of test e))))
  any_of-parts test a b c d e =
      any_of-++ test a _
      ∙ ap (λ x. any_of test a || x)
          (any_of-++ test b _
            ∙ ap (λ x. any_of test b || x)
                (any_of-++ test c _ ∙ ap (λ x. any_of test c || x) (any_of-++ test d e)))

and_true : (a b : Bool) → (a && b) ≡ true → (a ≡ true) × (b ≡ true)
and_true true true both = (refl, refl)
and_true true false both = cc
and_true false b both = cc

no_ports_sent : (c x : Bool) → ((c && false) || ((c && false) || (x || false))) ≡ x
no_ports_sent true true = refl
no_ports_sent true false = refl
no_ports_sent false true = refl
no_ports_sent false false = refl

ports_sent :
    (o n l r : Bool)
    → (((o && n) && (l || l)) || (((o && n) && (r || r)) || false)) ≡ (o && ((l || r) && n))
ports_sent false n l r = refl
ports_sent true true true r = refl
ports_sent true true false true = refl
ports_sent true true false false = refl
ports_sent true false true r = refl
ports_sent true false false true = refl
ports_sent true false false false = refl

condition_out : (o x y : Bool) → ((o && x) || (o && y)) ≡ (o && (x || y))
condition_out true x y = refl
condition_out false x y = refl

module _ (g : Target) (p : Packet) where
  -- What the five parts send is what is meant.
  parts-meant :
      ((reached g p
          && (in_ranges p.sport g.local_port_ranges || in_ranges p.sport g.local_port_ranges))
        || ((reached g p
              && (in_ranges p.dport g.remote_port_ranges || in_ranges p.dport g.remote_port_ranges))
            || ((if is_nil g.local_port_ranges && is_nil g.remote_port_ranges
                  then p.of_protocol && any_of p.satisfies g.dest_ip_rules
                  else false)
                || false)))
      ≡ is_meant g p
  unfolding is_meant
  parts-meant = elim (Bool-cases (is_nil g.local_port_ranges && is_nil g.remote_port_ranges)) [
    | inl no_ports ↦
        let (no_local, no_remote) =
          and_true (is_nil g.local_port_ranges) (is_nil g.remote_port_ranges) no_ports in
        rw
          (
            no_ports,
            in_ranges-nil g p p.sport g.local_port_ranges no_local,
            in_ranges-nil g p p.dport g.remote_port_ranges no_remote,
          )
          (no_ports_sent (reached g p) (p.of_protocol && any_of p.satisfies g.dest_ip_rules))
    | inr ports ↦ rw ports (
        ports_sent p.of_protocol (is_nil g.dest_ip_rules || any_of p.satisfies g.dest_ip_rules)
          (in_ranges p.sport g.local_port_ranges) (in_ranges p.dport g.remote_port_ranges))
  ]

or_false : (b : Bool) → (b || false) ≡ b
or_false true = refl
or_false false = refl

join :
    {a b c d e a' b' c' d' e' : Bool}
    → a ≡ a'
    → b ≡ b'
    → c ≡ c'
    → d ≡ d'
    → e ≡ e'
    → (a || (b || (c || (d || e)))) ≡ (a' || (b' || (c' || (d' || e'))))
join p q r s t =
    ap₂ (λ x y. x || y) p (ap₂ (λ x y. x || y) q (ap₂ (λ x y. x || y) r (ap₂ (λ x y. x || y) s t)))

not_port-spared :
    (p : Packet) (m : MaskEntry)
    → any_of (is_spared p) (not_port m ∷ [])
      ≡ (p.of_protocol && (selects m p.dport || selects m p.sport))
unfolding any_of is_spared
not_port-spared p m = or_false (p.of_protocol && (selects m p.dport || selects m p.sport))

not_port-not_sent : (p : Packet) (m : MaskEntry) → any_of (is_sent p) (not_port m ∷ []) ≡ false
unfolding any_of is_sent
not_port-not_sent p m = refl

-- For ranges of ports from 1 to 65535, an experiment has filters, and they send each packet to the
-- band that is intended for it: past the experiment if an exclusion holds for an end of it, and else
-- to the experiment if it is meant by its ports and its destination.
pub filters_of-Bands :
    (g : Target)
    → All IsPortRange g.local_port_ranges
    → All IsPortRange g.remote_port_ranges
    → All IsPortRange g.exclude_port_ranges
    → (fs : List Filter) × (filters_of g ≡ some fs)
      × ((p : Packet) → p.sport < 65536 → p.dport < 65536 → band_of p fs ≡ intended_band g p)
unfolding filters_of band_of intended_band is_excluded port_at
filters_of-Bands g valid_local valid_remote valid_excluded =
    let (local, l, of_local) =
      ranges-Tests (for_mask "sport" g.dest_ip_rules) g.local_port_ranges valid_local in
    let (remote, r, of_remote) =
      ranges-Tests (for_mask "dport" g.dest_ip_rules) g.remote_port_ranges valid_remote in
    let (excluded, x, of_excluded) =
      ranges-Tests (λ mask. not_port mask ∷ []) g.exclude_port_ranges valid_excluded in
    (
      local ++ (remote ++ (only_rules g ++ (map not_rule g.exclude_ip_rules ++ excluded))),
      rw (l, filters_of) (rw (r) (rw (x) refl)),
      λ p source destination.
          ap₂ (λ spared sent. if spared then some "1:3" else if sent then some "1:4" else none)
            (any_of-parts g p (is_spared p) local remote (only_rules g)
                (map not_rule g.exclude_ip_rules) excluded
              ∙ join
                  (of_local (is_spared p) false p.sport p.sport source source
                    (mask-not_spared g p "sport" g.dest_ip_rules))
                  (of_remote (is_spared p) false p.dport p.dport destination destination
                    (mask-not_spared g p "dport" g.dest_ip_rules))
                  (only_rules-not_spared g p) (not_rules-spared g p)
                  (of_excluded (is_spared p) p.of_protocol p.dport p.sport destination source
                    (not_port-spared p))
              ∙ condition_out p.of_protocol (any_of p.satisfies g.exclude_ip_rules) (
                  in_ranges p.dport g.exclude_port_ranges
                  || in_ranges p.sport g.exclude_port_ranges))
            (any_of-parts g p (is_sent p) local remote (only_rules g)
                (map not_rule g.exclude_ip_rules) excluded
              ∙ join
                  (of_local (is_sent p) (reached g p) p.sport p.sport source source
                    (mask-sent g p "sport" g.dest_ip_rules))
                  (of_remote (is_sent p) (reached g p) p.dport p.dport destination destination
                    (mask-sent g p "dport" g.dest_ip_rules))
                  (only_rules-sent g p) (not_rules-not_sent g p)
                  (of_excluded (is_sent p) false p.dport p.sport destination source
                    (not_port-not_sent p))
              ∙ parts-meant g p),
    )
