-- ===== src/Program.antt =====
-- main.go: the tables of flags that `init` builds, the reading of the command line by package flag,
-- and `main`.
pub mod Dispatch
use Prim.Native.String.{[], ◌∷◌}
use mathlib.Core.List.{[], ◌∷◌}
use chaosblade_exec_os.Prelude.{
  ℕ, zero, suc, code, String, List, ◌++◌, map, Option, none, some, Bool, true, false, not, ◌&&◌,
  ◌||◌, ◌==◌, str_eq, if◌then◌else◌,
}
use chaosblade_exec_os.Go.Strings.{◌+s◌}
use chaosblade_exec_os.Channel.{
  Env, Response, Context, Flags, flag, flag_is_true, os_cmd_exec_failed, M, pure, panicked, ◌>>=◌,
}

-- A flag of an experiment: its name and its default.
pub record FlagSpec : Type 0 where
  pub name : String
  pub default : String

-- An action and a model of experiments, as the executors' packages describe them.
pub record ActionSpec : Type 0 where
  pub name : String
  pub flags : List FlagSpec
  pub matchers : List FlagSpec

pub record ModelSpec : Type 0 where
  pub name : String
  pub flags : List FlagSpec
  pub actions : List ActionSpec

-- The words of packages `spec` and `channel`: spec.Create, spec.Destroy, spec.LocalChannel,
-- spec.NSExecBin, and the names of the flags of nsexec.
pub record Words : Type 0 where
  pub create : String
  pub destroy : String
  pub local_channel : String
  pub ns_exec_bin : String
  pub ns_target : String
  pub ns_pid : String
  pub ns_mnt : String
  pub ns_net : String

-- model.UidFlag and so on, which every action has.
abbrev pub common_flags : Words → List FlagSpec
common_flags words =
    record { name = "uid"; default = "" }
    ∷ record { name = "channel"; default = "local" }
    ∷ record { name = words.ns_target; default = "" }
    ∷ record { name = words.ns_pid; default = "false" }
    ∷ record { name = words.ns_mnt; default = "false" }
    ∷ record { name = words.ns_net; default = "false" }
    ∷ record { name = "debug"; default = "" }
    ∷ []

-- The inner loop of `init`: a later action of the same key takes the place of an earlier one.
unfoldable pub add_actions :
    Words → ModelSpec → List ActionSpec → (String → List FlagSpec) → String → List FlagSpec
add_actions words model [] table = table
add_actions words model (action ∷ rest) table = add_actions words model rest λ key.
    if str_eq key (model.name +s action.name)
    then (action.flags ++ (model.flags ++ action.matchers)) ++ common_flags words
    else table key

unfoldable pub add_models :
    Words → List ModelSpec → (String → List FlagSpec) → String → List FlagSpec
unfolding add_actions
add_models words [] table = table
add_models words (model ∷ rest) table =
    add_models words rest (add_actions words model model.actions table)

-- modelActionFlags; a missing key reads as nil.
unfoldable pub model_action_flags : Words → List ModelSpec → String → List FlagSpec
unfolding add_models
model_action_flags words models = add_models words models λ key. []

unfoldable pub declares : List FlagSpec → String → Bool
declares [] name = false
declares (f ∷ rest) name = str_eq f.name name || declares rest name

-- flagSet.String panics on a name that is there already.
unfoldable pub redefines : List FlagSpec → Bool
unfolding declares
redefines [] = false
redefines (f ∷ rest) = declares rest f.name || redefines rest

-- A name and the value behind its first "=", which is not the first character.
unfoldable pub cut_value : String → String × Option String
cut_value [] = ("", none)
cut_value (c ∷ s) =
    let (name, value) = cut_value s in
    let longer : String = c ∷ name in if code c == b'=' then ("", some s) else (longer, value)

-- What an argument is to package flag: no flag, the end of flags, a wrong one, or a name with a
-- value or without.
pub data Argument : Type 0 where
  no_flag no_more wrong : Argument
  named : String → Option String → Argument

-- Behind the dashes; the first character is looked at for a dash or "=" only.
unfoldable pub named_argument : String → Argument
unfolding cut_value
named_argument [] = wrong
named_argument (c ∷ s) =
    let (name, value) = cut_value s in
    let whole : String = c ∷ name in
    if code c == b'-' || code c == b'=' then wrong else named whole value

unfoldable pub argument_of : String → Argument
unfolding named_argument
argument_of [] = no_flag
argument_of (c ∷ []) = no_flag
argument_of (c ∷ d ∷ []) =
    if not (code c == b'-')
    then no_flag
    else if code d == b'-'
    then no_more
    else named_argument (d ∷ [])
argument_of (c ∷ d ∷ e ∷ s) =
    if not (code c == b'-')
    then no_flag
    else if code d == b'-'
    then named_argument (e ∷ s)
    else named_argument (d ∷ e ∷ s)

-- flagSet.Parse for flags with texts: the values set, the last first, behind those set before;
-- `none` is an error, which exits.
unfoldable pub parse_args :
    List FlagSpec → List String → List (String × String) → Option (List (String × String))
unfolding argument_of declares
parse_args table [] values = some values
parse_args table (arg ∷ []) values =
    elim (argument_of arg) as (λ x. Option (List (String × String))) [
      | no_flag ↦ some values
      | no_more ↦ some values
      | wrong ↦ none
      | named name none ↦ none
      | named name (some value) ↦
          if declares table name then some ((name, value) ∷ values) else none
    ]
parse_args table (arg ∷ next ∷ args) values =
    let shifted = parse_args table args in
    let following = parse_args table (next ∷ args) in
    elim (argument_of arg) as (λ x. Option (List (String × String))) [
      | no_flag ↦ some values
      | no_more ↦ some values
      | wrong ↦ none
      | named name none ↦ if declares table name then shifted ((name, next) ∷ values) else none
      | named name (some value) ↦
          if declares table name then following ((name, value) ∷ values) else none
    ]

unfoldable pub value_of : List (String × String) → String → String → String
value_of [] name default = default
value_of ((n, value) ∷ rest) name default =
    if str_eq n name then value else value_of rest name default

-- actionFlags: each declared name has its value or its default.
unfoldable pub action_flags : List FlagSpec → List (String × String) → Flags
unfolding value_of
action_flags [] values name = none
action_flags (f ∷ rest) values name =
    if str_eq f.name name
    then some (value_of values name f.default)
    else action_flags rest values name

-- The channel that an executor gets: local, or nsexec with the target and the namespaces.
pub data ChannelKind : Type 0 where
  local : ChannelKind
  nsexec : String → Bool → Bool → Bool → ChannelKind

unfoldable pub channel_of : Words → Flags → ChannelKind
unfolding flag flag_is_true
channel_of words flags =
    if str_eq (flag flags "channel") words.local_channel
    then local
    else if str_eq (flag flags "channel") words.ns_exec_bin
    then nsexec (flag flags words.ns_target) (flag_is_true flags words.ns_pid)
        (flag_is_true flags words.ns_mnt) (flag_is_true flags words.ns_net)
    else local

-- An executor: Exec, for the channel that was set.
abbrev pub Executor : Type 0
Executor = ChannelKind → String → Context → Flags → M (Option Response)

-- How the program ends: with a response that is printed, or with an error of package flag.
pub data Exit : Type 0 where
  printed : Option Response → Exit
  flag_error : Exit

unfoldable pub context_of : Words → String → Flags → Context
unfolding flag
context_of words mode flags = record {
  uid = some (flag flags "uid");
  destroy = str_eq mode words.destroy;
}

-- The uid that Exec gets; `generated` is the first value of util.GenerateUid.
unfoldable pub exec_uid : Words → String → String → Flags → String
unfolding flag
exec_uid words generated mode flags =
    if str_eq mode words.destroy
    then flag flags "uid"
    else if str_eq (flag flags "uid") ""
    then generated
    else flag flags "uid"

module _ (env : Env) (words : Words) (models : List ModelSpec)
    (executors : String → Option Executor) (generated : String) where
  abbrev invalid : String → M Exit
  invalid text = pure (printed (some (env.return_fail os_cmd_exec_failed text)))

  -- From the flags on.
  unfoldable pub run_mode : String → String → String → String → Flags → M Exit
  unfolding context_of exec_uid channel_of
  run_mode args_text mode target action flags =
      if str_eq mode words.create || str_eq mode words.destroy
      then (elim (executors (target +s action)) as (λ x. M Exit) [
        | none ↦ invalid ("not found executor, target: " +s target +s ", action: " +s action)
        | some exec ↦ do
          response ←
              exec (channel_of words flags) (exec_uid words generated mode flags)
                (context_of words mode flags) flags
          pure (printed response)
      ])
      else invalid ("invalid parameter, " +s args_text)

  -- os.Args is the program, the mode, the target, the action and the flags; `args_text` is what %v
  -- writes for them.
  unfoldable pub main : (List String → String) → List String → M Exit
  unfolding run_mode parse_args action_flags redefines model_action_flags
  main args_text (program ∷ mode ∷ target ∷ action ∷ args) =
      let table = model_action_flags words models (target +s action) in
      let text = args_text (program ∷ mode ∷ target ∷ action ∷ args) in
      if redefines table
      then (λ t. panicked t)
      else (elim (parse_args table args []) as (λ x. M Exit) [
        | none ↦ pure flag_error
        | some values ↦ run_mode text mode target action (action_flags table values)
      ])
  main args_text args = invalid ("invalid parameter, " +s args_text args)
