-- ===== src/Network/Tc/Safety/Excluded.antt =====
-- The port flags of `startNet`, where no peer ports are looked up: no call is made.
use chaosblade_exec_os.Prelude.{
  ℕ, zero, suc, ◌+◌, ◌-◌, ◌≤◌, ◌≡◌, refl, String, List, [], ◌∷◌, true, inl, inr, str_eq, arith, All,
  Bool-cases,
}
use chaosblade_exec_os.Prelude.Result.{Result, ok, err}
use chaosblade_exec_os.Ports.Ranges.{PortRange, add_port}
use chaosblade_exec_os.Ports.Ranges.Valid.{
  IsPort, IsPortRange, All-add_port, All-port_set_to_port_ranges,
}
use chaosblade_exec_os.Ports.Parse.{ParseError, parse_integer_list_to_port_ranges}
use chaosblade_exec_os.Channel.{Env, Response, Trace, returned, parameter_illegal}
use chaosblade_exec_os.Channel.Laws.{Returns, Returns-bind}
use chaosblade_exec_os.Network.Tc.Peers.{exclude_ports, exclude_ranges, get_exclude_port_ranges}
use chaosblade_exec_os.Network.Tc.Start.{NetArgs, parse_port_flag, exclude_port_flag}

-- If the text is accepted, its ranges are ranges of port numbers from 1 to 65535.
abbrev pub HasPorts : String → Type 0
HasPorts value =
    (rs : List PortRange) → parse_integer_list_to_port_ranges value ≡ ok rs → All IsPortRange rs

-- Ranges of port numbers, or an error.
abbrev pub GoodRanges : {E : Type 0} → Result E (List PortRange) → Type 0
GoodRanges (ok rs) = All IsPortRange rs
GoodRanges (err e) = Unit

module _ (env : Env) (t : Trace) where
  exclude_ports-IsPort :
      (n p : ℕ) (set : List ℕ)
      → 0 ≤ n
      → 1 ≤ p
      → p + n ≤ 65536
      → All IsPort set
      → (set' : List ℕ) × (exclude_ports env true n p set t ≡ returned (ok set') t)
        × All IsPort set'
  unfolding exclude_ports
  exclude_ports-IsPort zero p set _ low high h = (set, refl, h)
  exclude_ports-IsPort (suc n) p set _ low high h =
      exclude_ports-IsPort n (p + 1) (add_port p set) (omega arith) (omega arith) (omega arith)
        (All-add_port p set (omega arith) h)

  exclude_ranges-IsPort :
      (rs : List PortRange) (set : List ℕ)
      → All IsPortRange rs
      → All IsPort set
      → (set' : List ℕ) × (exclude_ranges env true rs set t ≡ returned (ok set') t)
        × All IsPort set'
  unfolding exclude_ranges
  exclude_ranges-IsPort [] set k h = (set, refl, h)
  exclude_ranges-IsPort (r ∷ rs) set ((low, le, high), k) h =
      let (next, here, h') =
        exclude_ports-IsPort (r.last + 1 - r.first) r.first set (omega arith) low (omega arith) h in
      let (set', later, h'') = exclude_ranges-IsPort rs next k h' in (set', rw here later, h'')

  get_exclude_port_ranges-Good :
      (value : String)
      → HasPorts value
      → Returns
          (λ result t'. (t' ≡ t) × GoodRanges result)
          (get_exclude_port_ranges env value true t)
  unfolding get_exclude_port_ranges
  get_exclude_port_ranges-Good value ports = go (parse_integer_list_to_port_ranges value) refl
    where
      go :
          (result : Result ParseError (List PortRange))
          → parse_integer_list_to_port_ranges value ≡ result
          → Returns
              (λ result t'. (t' ≡ t) × GoodRanges result)
              (get_exclude_port_ranges env value true t)
      go (err e) p = rw (p, Returns) (refl, tt)
      go (ok rs) p =
          let (set, built, h) = exclude_ranges-IsPort rs [] (ports rs p) tt in
          rw (p, Returns) (rw (built, Returns) (refl, All-port_set_to_port_ranges set h))

  pub exclude_port_flag-Good :
      (a : NetArgs)
      → a.ignore_peer_ports ≡ true
      → HasPorts a.exclude_port
      → Returns (λ result t'. (t' ≡ t) × GoodRanges result) (exclude_port_flag env a t)
  unfolding exclude_port_flag
  exclude_port_flag-Good a ignored ports = elim (Bool-cases (str_eq a.exclude_port "")) [
    | inl empty ↦ rw (empty, Returns) (refl, tt)
    | inr given ↦
        rw (given, Returns)
          (rw (ignored, Returns)
            (Returns-bind (λ result t'. (t' ≡ t) × GoodRanges result) _ _ _
              (get_exclude_port_ranges-Good a.exclude_port ports) wrap))
  ]
    where
      wrap :
          (result : Result String (List PortRange)) (t' : Trace)
          → (t' ≡ t) × GoodRanges result
          → Returns
              (λ (result' : Result Response (List PortRange)) t''. (t'' ≡ t) × GoodRanges result')
              (returned
                (elim result as (λ x. Result Response (List PortRange)) [
                  | ok ranges ↦ ok ranges
                  | err e ↦ err (
                      env.fail_with_flags parameter_illegal
                        ("exclude-port" ∷ a.exclude_port ∷ e ∷ []))
                ])
                t')
      wrap (ok rs) t' h = h
      wrap (err e) t' h = h

  pub parse_port_flag-Good :
      (name value : String) → HasPorts value → GoodRanges (parse_port_flag env name value)
  unfolding parse_port_flag
  parse_port_flag-Good name value ports =
      ground (arith, good (parse_integer_list_to_port_ranges value) refl)
    where
      good :
          (result : Result ParseError (List PortRange))
          → parse_integer_list_to_port_ranges value ≡ result
          → GoodRanges result
      good (err e) p = tt
      good (ok rs) p = ports rs p
