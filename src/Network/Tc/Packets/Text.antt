-- ===== src/Network/Tc/Packets/Text.antt =====
-- The text that `buildTargetFilterPortAndIp` builds is that of its filters.
use chaosblade_exec_os.Prelude.{
  ◌≡◌, refl, sym, ◌∙◌, ap, String, List, [], ◌∷◌, ◌++◌, map, Option, none, some, ◌&&◌,
  if◌then◌else◌, Option-cases, Bool-cases, inl, inr,
}
use chaosblade_exec_os.Ports.Ranges.{PortRange}
use chaosblade_exec_os.Ports.Masks.{MaskEntry, build_mask_for_range}
use chaosblade_exec_os.Network.Tc.Filters.{
  Target, fold_text, for_masks, append_each, target_mask, target_rule_mask, target_rule,
  exclude_rule, exclude_mask, is_nil, build_filters,
}
use chaosblade_exec_os.Network.Tc.Packets.{
  Filter, to_rule_and_port, to_rule, not_rule, not_port, for_mask, for_each_mask, for_ranges,
  only_rules, filters_of, render, render_all,
}

module _ (dev protocolrule : String) where
  abbrev write : List Filter → String → String
  write filters args = render_all dev protocolrule filters args

  write-++ :
      (fs gs : List Filter) (args : String) → write (fs ++ gs) args ≡ write gs (write fs args)
  unfolding render_all
  write-++ [] gs args = refl
  write-++ (f ∷ fs) gs args = write-++ fs gs (render dev protocolrule f args)

  write-map :
      (make : String → Filter) (body : String → String → String) (rules : List String)
      (args : String)
      → ((rule args : String) → body rule args ≡ render dev protocolrule (make rule) args)
      → append_each body rules args ≡ write (map make rules) args
  unfolding append_each render_all
  write-map make body [] args same = refl
  write-map make body (rule ∷ rules) args same =
      ap (append_each body rules) (same rule args)
      ∙ write-map make body rules (render dev protocolrule (make rule) args) same

  write-mask :
      (side : String) (rules : List String) (mask : MaskEntry) (args : String)
      → target_mask dev side protocolrule rules mask args ≡ write (for_mask side rules mask) args
  unfolding target_mask for_mask render_all render
  write-mask side [] mask args = refl
  write-mask side (rule ∷ rules) mask args =
      write-map (λ r. to_rule_and_port r side mask) (target_rule_mask dev side protocolrule mask)
        (rule ∷ rules) args λ r a. refl

  write-masks :
      (make : MaskEntry → List Filter) (body : MaskEntry → String → String) (masks : List MaskEntry)
      (args : String)
      → ((mask : MaskEntry) (args : String) → body mask args ≡ write (make mask) args)
      → fold_text (λ mask text. some (body mask text)) masks args
        ≡ some (write (for_each_mask make masks) args)
  unfolding fold_text for_each_mask render_all
  write-masks make body [] args same = refl
  write-masks make body (mask ∷ masks) args same =
      write-masks make body masks (body mask args) same
      ∙ ap (λ a. some (write (for_each_mask make masks) a)) (same mask args)
      ∙ ap some (sym (write-++ (make mask) (for_each_mask make masks) args))

  -- The text of filters, if there are.
  abbrev text_of_filters : Option (List Filter) → String → Option String
  text_of_filters filters args = elim filters as (λ x. Option String) [
    | none ↦ none
    | some fs ↦ some (write fs args)
  ]

  write-ranges_step :
      (make : MaskEntry → List Filter) (masks : List MaskEntry) (r : PortRange)
      (rest : List PortRange) (args : String)
      → build_mask_for_range r.first r.last ≡ some masks
      → text_of_filters (for_ranges make rest) (write (for_each_mask make masks) args)
        ≡ text_of_filters (for_ranges make (r ∷ rest)) args
  unfolding for_ranges
  write-ranges_step make masks r rest args built = elim (Option-cases (for_ranges make rest)) [
    | inl endless ↦ rw (built, endless, for_ranges) refl
    | inr (fs, made) ↦
        rw (built, made, for_ranges) (ap some (sym (write-++ (for_each_mask make masks) fs args)))
  ]

  write-first_range :
      (make : MaskEntry → List Filter) (body : MaskEntry → String → String) (masks : List MaskEntry)
      (r : PortRange) (rest : List PortRange) (args : String)
      → ((mask : MaskEntry) (args : String) → body mask args ≡ write (make mask) args)
      → build_mask_for_range r.first r.last ≡ some masks
      → fold_text (for_masks body) (r ∷ rest) args
        ≡ fold_text (for_masks body) rest (write (for_each_mask make masks) args)
  unfolding fold_text for_masks
  write-first_range make body masks r rest args same built =
      rw (built, fold_text, for_masks) (rw (write-masks make body masks args same) refl)

  write-no_range :
      (make : MaskEntry → List Filter) (body : MaskEntry → String → String) (r : PortRange)
      (rest : List PortRange) (args : String)
      → build_mask_for_range r.first r.last ≡ none
      → fold_text (for_masks body) (r ∷ rest) args
        ≡ text_of_filters (for_ranges make (r ∷ rest)) args
  unfolding fold_text for_masks for_ranges
  write-no_range make body r rest args endless = rw (endless, fold_text, for_masks, for_ranges) refl

  write-ranges :
      (make : MaskEntry → List Filter) (body : MaskEntry → String → String)
      (ranges : List PortRange) (args : String)
      → ((mask : MaskEntry) (args : String) → body mask args ≡ write (make mask) args)
      → fold_text (for_masks body) ranges args ≡ text_of_filters (for_ranges make ranges) args
  write-ranges make body [] args same =
      unfold fold_text in unfold for_ranges in unfold render_all in refl
  write-ranges make body (r ∷ rest) args same =
      elim (Option-cases (build_mask_for_range r.first r.last)) [
        | inl endless ↦ write-no_range make body r rest args endless
        | inr (masks, built) ↦
            write-first_range make body masks r rest args same built
            ∙ write-ranges make body rest (write (for_each_mask make masks) args) same
            ∙ write-ranges_step make masks r rest args built
      ]

  write-only_rules :
      (g : Target) (args : String)
      → (if is_nil g.local_port_ranges && is_nil g.remote_port_ranges
          then append_each (target_rule dev protocolrule) g.dest_ip_rules args
          else args)
        ≡ write (only_rules g) args
  unfolding only_rules render
  write-only_rules g args =
      elim (Bool-cases (is_nil g.local_port_ranges && is_nil g.remote_port_ranges)) [
        | inl none_given ↦
            rw none_given
              (write-map to_rule (target_rule dev protocolrule) g.dest_ip_rules args λ r a. refl)
        | inr given ↦ rw given (unfold render_all in refl)
      ]

  module _ (g : Target) (args : String) where
    local_text :
        fold_text
          (for_masks (target_mask dev "sport" protocolrule g.dest_ip_rules))
          g.local_port_ranges
          args
        ≡ text_of_filters (for_ranges (for_mask "sport" g.dest_ip_rules) g.local_port_ranges) args
    local_text =
        write-ranges (for_mask "sport" g.dest_ip_rules)
          (target_mask dev "sport" protocolrule g.dest_ip_rules) g.local_port_ranges args
          λ mask a. write-mask "sport" g.dest_ip_rules mask a

    remote_text :
        (a : String)
        → fold_text
            (for_masks (target_mask dev "dport" protocolrule g.dest_ip_rules))
            g.remote_port_ranges
            a
          ≡ text_of_filters (for_ranges (for_mask "dport" g.dest_ip_rules) g.remote_port_ranges) a
    remote_text a =
        write-ranges (for_mask "dport" g.dest_ip_rules)
          (target_mask dev "dport" protocolrule g.dest_ip_rules) g.remote_port_ranges a
          λ mask b. write-mask "dport" g.dest_ip_rules mask b

    excluded_text :
        (a : String)
        → fold_text (for_masks (exclude_mask dev protocolrule)) g.exclude_port_ranges a
          ≡ text_of_filters (for_ranges (λ mask. not_port mask ∷ []) g.exclude_port_ranges) a
    unfolding render_all render
    excluded_text a =
        write-ranges (λ mask. not_port mask ∷ []) (exclude_mask dev protocolrule)
          g.exclude_port_ranges a λ mask b. refl

    not_rules_text :
        (a : String)
        → append_each (exclude_rule dev protocolrule) g.exclude_ip_rules a
          ≡ write (map not_rule g.exclude_ip_rules) a
    unfolding render
    not_rules_text a =
        write-map not_rule (exclude_rule dev protocolrule) g.exclude_ip_rules a λ r b. refl

    -- What follows the filters of ports.
    rest_text :
        (a : String)
        → fold_text (for_masks (exclude_mask dev protocolrule)) g.exclude_port_ranges (
            append_each (exclude_rule dev protocolrule) g.exclude_ip_rules (
              if is_nil g.local_port_ranges && is_nil g.remote_port_ranges
              then append_each (target_rule dev protocolrule) g.dest_ip_rules a
              else a))
          ≡ text_of_filters
              (for_ranges (λ mask. not_port mask ∷ []) g.exclude_port_ranges)
              (write (map not_rule g.exclude_ip_rules) (write (only_rules g) a))
    rest_text a =
        excluded_text _
        ∙ ap (text_of_filters (for_ranges (λ mask. not_port mask ∷ []) g.exclude_port_ranges)) (
            ap (append_each (exclude_rule dev protocolrule) g.exclude_ip_rules)
              (write-only_rules g a)
            ∙ not_rules_text (write (only_rules g) a))

    written :
        (local remote excluded : List Filter)
        → write excluded (
            write
              (map not_rule g.exclude_ip_rules)
              (write (only_rules g) (write remote (write local args))))
          ≡ write
              (local ++ (remote ++ (only_rules g ++ (map not_rule g.exclude_ip_rules ++ excluded))))
              args
    written local remote excluded = sym (
        write-++ local _ args
        ∙ write-++ remote _ (write local args)
        ∙ write-++ (only_rules g) _ (write remote (write local args))
        ∙ write-++ (map not_rule g.exclude_ip_rules) excluded
            (write (only_rules g) (write remote (write local args))))

    -- The text of the filter commands of an experiment is that of its filters, in their order, and a
    -- mask is computed for ever in the one where it is in the other.
    pub build_filters-rendered :
        build_filters g protocolrule args dev ≡ text_of_filters (filters_of g) args
    unfolding build_filters filters_of
    build_filters-rendered =
        elim (Option-cases (for_ranges (for_mask "sport" g.dest_ip_rules) g.local_port_ranges)) [
          | inl endless ↦ rw (local_text, build_filters) (rw (endless, filters_of) refl)
          | inr (local, l) ↦
              elim (Option-cases
                (for_ranges (for_mask "dport" g.dest_ip_rules) g.remote_port_ranges)) [
                  | inl endless ↦
                      rw (local_text, build_filters)
                        (rw (l, filters_of)
                          (rw (remote_text (write local args)) (rw (endless) refl)))
                  | inr (remote, r) ↦
                      rw (local_text, build_filters)
                        (rw (l, filters_of)
                          (rw (remote_text (write local args)) (rw r (finish local remote))))
                ]
        ]
      where
        joined : (local remote : List Filter) → Option (List Filter) → Option (List Filter)
        joined local remote filters = elim filters as (λ x. Option (List Filter)) [
          | none ↦ none
          | some excluded ↦
              some (
                local
                ++ (remote ++ (only_rules g ++ (map not_rule g.exclude_ip_rules ++ excluded))))
        ]

        last :
            (local remote : List Filter) (filters : Option (List Filter))
            → text_of_filters filters (
                write
                  (map not_rule g.exclude_ip_rules)
                  (write (only_rules g) (write remote (write local args))))
              ≡ text_of_filters (joined local remote filters) args
        last local remote none = refl
        last local remote (some excluded) = ap some (written local remote excluded)

        finish :
            (local remote : List Filter)
            → fold_text (for_masks (exclude_mask dev protocolrule)) g.exclude_port_ranges (
                append_each (exclude_rule dev protocolrule) g.exclude_ip_rules (
                  if is_nil g.local_port_ranges && is_nil g.remote_port_ranges
                  then append_each
                      (target_rule dev protocolrule)
                      g.dest_ip_rules
                      (write remote (write local args))
                  else write remote (write local args)))
              ≡ text_of_filters
                  (joined local remote
                    (for_ranges (λ mask. not_port mask ∷ []) g.exclude_port_ranges))
                  args
        finish local remote =
            rest_text (write remote (write local args))
            ∙ last local remote (for_ranges (λ mask. not_port mask ∷ []) g.exclude_port_ranges)
