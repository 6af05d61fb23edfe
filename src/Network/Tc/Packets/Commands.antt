-- ===== src/Network/Tc/Packets/Commands.antt =====
-- The filter commands of `tc` as data: how each is written, what `tc` does by it to a packet, and
-- the commands of the filters of an experiment.
use chaosblade_exec_os.Prelude.{
  ◌≡◌, refl, sym, ◌∙◌, ap, String, List, [], ◌∷◌, ◌++◌, Option, none, some, Bool, true, false, ◌&&◌,
  ◌||◌, if◌then◌else◌, str_eq, Bool-cases, inl, inr,
}
use text.Mathlib.TextLemmas.{append_assoc}
use chaosblade_exec_os.Go.Strings.{◌+s◌}
use chaosblade_exec_os.Go.Strconv.{itoa, hex}
use chaosblade_exec_os.Ports.Masks.{MaskEntry}
use chaosblade_exec_os.Ports.Masks.Cover.{selects}
use chaosblade_exec_os.Network.Tc.Packets.{
  Filter, to_rule_and_port, to_port, to_rule, not_rule, not_port, render, render_all, Packet,
  port_at, is_sent, is_spared, any_of, band_of,
}

-- A term of a filter: a rule on addresses, a port of a side that a mask selects, the protocol.
pub data Term : Type 0 where
  rule_term : String → Term
  port_term : String → MaskEntry → Term
  protocol_term : Term

-- `tc filter add` behind some white space: its priority, its terms and the band it sends to.
pub record Command : Type 0 where
  pub space : String
  pub prio : String
  pub terms : List Term
  pub flowid : String

-- How a command is written, given what is written for the protocol.
unfoldable pub show_term : String → Term → String
show_term protocolrule (rule_term rule) = rule
show_term protocolrule (port_term side mask) =
    "match ip " +s side +s " " +s itoa mask.value +s " " +s hex mask.mask
show_term protocolrule protocol_term = protocolrule

unfoldable pub show_terms : String → List Term → String → String
unfolding show_term
show_terms protocolrule [] flowid = "flowid " +s flowid
show_terms protocolrule (term ∷ terms) flowid =
    show_term protocolrule term +s " " +s show_terms protocolrule terms flowid

unfoldable pub show_command : String → String → Command → String
unfolding show_terms
show_command dev protocolrule c =
    (" && \\\n" +s c.space +s "tc filter add dev " +s dev +s " parent 1: prio " +s c.prio
      +s " protocol ip u32 ")
    +s show_terms protocolrule c.terms c.flowid

unfoldable pub show_all : String → String → List Command → String → String
unfolding show_command
show_all dev protocolrule [] args = args
show_all dev protocolrule (c ∷ commands) args =
    show_all dev protocolrule commands (args +s show_command dev protocolrule c)

-- A packet is sent to the band of the first command all of whose terms hold for it: those with prio
-- 1 come before those with prio 4. `none`: no command is for it.
unfoldable pub holds : Packet → Term → Bool
unfolding selects port_at
holds p (rule_term rule) = p.satisfies rule
holds p (port_term side mask) = selects mask (port_at side p)
holds p protocol_term = p.of_protocol

unfoldable pub all_hold : Packet → List Term → Bool
unfolding holds
all_hold p [] = true
all_hold p (term ∷ terms) = holds p term && all_hold p terms

unfoldable pub first_match : String → Packet → List Command → Option String
unfolding all_hold
first_match prio p [] = none
first_match prio p (c ∷ commands) =
    let later = first_match prio p commands in
    if str_eq c.prio prio && all_hold p c.terms then some c.flowid else later

unfoldable pub tc_band : Packet → List Command → Option String
unfolding first_match
tc_band p commands = elim (first_match "1" p commands) as (λ x. Option String) [
  | some flowid ↦ some flowid
  | none ↦ first_match "4" p commands
]

-- The commands of a filter.
abbrev command : String → String → List Term → String → Command
command space prio terms flowid = record {
  space = space;
  prio = prio;
  terms = terms;
  flowid = flowid;
}

unfoldable pub commands : Filter → List Command
commands (to_rule_and_port rule side mask) =
    command "                            " "4"
      (rule_term rule ∷ port_term side mask ∷ protocol_term ∷ []) "1:4"
    ∷ []
commands (to_port side mask) =
    command "                        " "4" (port_term side mask ∷ protocol_term ∷ []) "1:4" ∷ []
commands (to_rule rule) = command "\t\t\t\t" "4" (rule_term rule ∷ protocol_term ∷ []) "1:4" ∷ []
commands (not_rule rule) = command "\t\t\t\t" "1" (rule_term rule ∷ protocol_term ∷ []) "1:3" ∷ []
commands (not_port mask) =
    command "                    " "1" (port_term "dport" mask ∷ protocol_term ∷ []) "1:3"
    ∷ command "                    " "1" (port_term "sport" mask ∷ protocol_term ∷ []) "1:3"
    ∷ []

unfoldable pub commands_of : List Filter → List Command
unfolding commands
commands_of [] = []
commands_of (f ∷ filters) = commands f ++ commands_of filters

-- A text behind the first of two commands.
behind_first :
    (args head match protocolrule rest : String)
    → args +s head +s match +s " " +s protocolrule +s " flowid 1:3" +s rest
      ≡ (args +s head +s match +s " " +s protocolrule +s " flowid 1:3") +s rest
behind_first args head match protocolrule rest = simp (append_assoc)

module _ (dev protocolrule : String) where
  show_all-++ :
      (cs ds : List Command) (args : String)
      → show_all dev protocolrule (cs ++ ds) args
        ≡ show_all dev protocolrule ds (show_all dev protocolrule cs args)
  unfolding show_all
  show_all-++ [] ds args = refl
  show_all-++ (c ∷ cs) ds args = show_all-++ cs ds (args +s show_command dev protocolrule c)

  render-shown :
      (f : Filter) (args : String)
      → render dev protocolrule f args ≡ show_all dev protocolrule (commands f) args
  unfolding render show_all commands
  render-shown (to_rule_and_port rule side mask) args = refl
  render-shown (to_port side mask) args = refl
  render-shown (to_rule rule) args = refl
  render-shown (not_rule rule) args = refl
  render-shown (not_port mask) args = behind_first args _ _ protocolrule _

  -- The text of filters is that of their commands.
  pub render_all-shown :
      (fs : List Filter) (args : String)
      → render_all dev protocolrule fs args ≡ show_all dev protocolrule (commands_of fs) args
  unfolding render_all commands_of
  render_all-shown [] args = unfold show_all in refl
  render_all-shown (f ∷ fs) args =
      ap (render_all dev protocolrule fs) (render-shown f args)
      ∙ render_all-shown fs (show_all dev protocolrule (commands f) args)
      ∙ sym (show_all-++ (commands f) (commands_of fs) args)

-- The band, if a test says so.
abbrev band_if : String → Bool → Option String
band_if flowid b = if b then some flowid else none

one_term :
    (flowid : String) (o a rest : Bool)
    → (if a && (o && true) then some flowid else band_if flowid rest)
      ≡ band_if flowid ((o && a) || rest)
one_term flowid true true rest = refl
one_term flowid true false rest = refl
one_term flowid false true rest = refl
one_term flowid false false rest = refl

two_terms :
    (o s a rest : Bool)
    → (if a && (s && (o && true)) then some "1:4" else band_if "1:4" rest)
      ≡ band_if "1:4" ((o && (s && a)) || rest)
two_terms true true true rest = refl
two_terms true true false rest = refl
two_terms true false true rest = refl
two_terms true false false rest = refl
two_terms false s true rest = unfold_both s
  where
    unfold_both :
        (s : Bool) → (if s && false then some "1:4" else band_if "1:4" rest) ≡ band_if "1:4" rest
    unfold_both true = refl
    unfold_both false = refl
two_terms false s false rest = refl

two_ends :
    (o d s rest : Bool)
    → (if d && (o && true)
        then some "1:3"
        else if s && (o && true)
        then some "1:3"
        else band_if "1:3" rest)
      ≡ band_if "1:3" ((o && (d || s)) || rest)
two_ends true true s rest = refl
two_ends true false true rest = refl
two_ends true false false rest = refl
two_ends false true true rest = refl
two_ends false true false rest = refl
two_ends false false true rest = refl
two_ends false false false rest = refl

module _ (p : Packet) where
  spared_first :
      (fs : List Filter)
      → first_match "1" p (commands_of fs) ≡ band_if "1:3" (any_of (is_spared p) fs)
  unfolding first_match commands_of any_of is_spared
  spared_first [] = refl
  spared_first (to_rule_and_port rule side mask ∷ fs) = spared_first fs
  spared_first (to_port side mask ∷ fs) = spared_first fs
  spared_first (to_rule rule ∷ fs) = spared_first fs
  spared_first (not_rule rule ∷ fs) =
      rw (spared_first fs)
        (one_term "1:3" p.of_protocol (p.satisfies rule) (any_of (is_spared p) fs))
  spared_first (not_port mask ∷ fs) = rw (spared_first fs) (
      two_ends p.of_protocol (selects mask p.dport) (selects mask p.sport)
        (any_of (is_spared p) fs))

  sent_first :
      (fs : List Filter)
      → first_match "4" p (commands_of fs) ≡ band_if "1:4" (any_of (is_sent p) fs)
  unfolding first_match commands_of any_of is_sent
  sent_first [] = refl
  sent_first (to_rule_and_port rule side mask ∷ fs) = rw (sent_first fs) (
      two_terms p.of_protocol (selects mask (port_at side p)) (p.satisfies rule)
        (any_of (is_sent p) fs))
  sent_first (to_port side mask ∷ fs) =
      rw (sent_first fs)
        (one_term "1:4" p.of_protocol (selects mask (port_at side p)) (any_of (is_sent p) fs))
  sent_first (to_rule rule ∷ fs) =
      rw (sent_first fs) (one_term "1:4" p.of_protocol (p.satisfies rule) (any_of (is_sent p) fs))
  sent_first (not_rule rule ∷ fs) = sent_first fs
  sent_first (not_port mask ∷ fs) = sent_first fs

  -- What `tc` does by the commands of filters is what the filters are for.
  pub tc_band-commands : (fs : List Filter) → tc_band p (commands_of fs) ≡ band_of p fs
  unfolding tc_band band_of
  tc_band-commands fs = elim (Bool-cases (any_of (is_spared p) fs)) [
    | inl spared ↦ rw (spared_first fs, spared, tc_band, band_of) refl
    | inr other ↦ rw (spared_first fs, other, tc_band, band_of) (sent_first fs)
  ]
