-- ===== src/Disk/Burn.antt =====
-- exec/disk/disk_burn.go: `Exec`, `stop`, `getArgs`, and the goroutines `burnRead` and `burnWrite`
-- with their interleavings.
pub mod Confined
use Prim.Native.String.{[], ◌∷◌}
use mathlib.Core.List.{[], ◌∷◌}
use chaosblade_exec_os.Prelude.{
  ℕ, zero, suc, ◌-◌, code, String, List, Option, none, some, Bool, true, false, not, ◌&&◌, ◌||◌,
  ◌==◌, leb, str_eq, if◌then◌else◌,
}
use chaosblade_exec_os.Go.Strings.{◌+s◌}
use chaosblade_exec_os.Go.Path.{join_path}
use chaosblade_exec_os.Channel.{
  Env, Response, Context, Flags, flag, flag_is_true, parameter_illegal, parameter_less, M, pure,
  hung, ◌>>=◌, ◌>>◌, local_run_cmd, local_all_commands,
}
use chaosblade_exec_os.Exec.{destroy}
use chaosblade_exec_os.Disk.{System}

-- unicode.ToUpper, where its result is a character of ASCII
unfoldable pub upper : ℕ → ℕ
upper c =
    if leb b'a' c && leb c b'z'
    then c - 32
    else if c == 305
    then b'I'
    else if c == 383
    then b'S'
    else c

-- A text in upper case begins with, or contains, a text of ASCII.
unfoldable pub has_upper_prefix : String → String → Bool
unfolding upper
has_upper_prefix s [] = true
has_upper_prefix [] (p ∷ ps) = false
has_upper_prefix (c ∷ s) (p ∷ ps) = upper (code c) == code p && has_upper_prefix s ps

unfoldable pub contains_upper : String → String → Bool
unfolding has_upper_prefix
contains_upper [] p = has_upper_prefix [] p
contains_upper (c ∷ s) p = has_upper_prefix (c ∷ s) p || contains_upper s p

-- The options of `dd` for the three commands.
pub record DdOptions : Type 0 where
  pub create : String
  pub read : String
  pub write : String

abbrev pub default_options : DdOptions
default_options = record {
  create = "oflag=dsync";
  read = "iflag=dsync,direct,fullblock";
  write = "oflag=dsync";
}

abbrev pub alpine_options : DdOptions
alpine_options = record {
  create = "oflag=append";
  read = "iflag=fullblock oflag=append";
  write = "oflag=append";
}

abbrev pub read_file : String → String
read_file directory = join_path directory "chaos_burnio.read"

abbrev pub write_file : String → String
write_file directory = join_path directory "chaos_burnio.write"

abbrev pub write_args : String → String → String → String
write_args file size options =
    "if=/dev/zero of=" +s file +s " bs=" +s size +s "M count=100 " +s options

abbrev pub read_args : String → String → String → String
read_args file size options =
    "if=" +s file +s " of=/dev/null bs=" +s size +s "M count=100 " +s options

-- A goroutine: before `getArgs`, before the file is created, in the loop with the options of its
-- command, and behind the loop.
pub data Burner : Type 0 where
  asking : Burner
  creating : DdOptions → Burner
  running : String → Burner
  ended : Burner

module _ (env : Env) where
  unfoldable pub get_args : M DdOptions
  unfolding contains_upper
  get_args = do
    response ← local_run_cmd env "cat" "/etc/os-release"
    pure (
        if response.success
        then (elim response.result as (λ x. DdOptions) [
          | none ↦ default_options
          | some text ↦ if contains_upper text "ID=ALPINE" then alpine_options else default_options
        ])
        else default_options)

  -- One command of the loop, which a failure ends.
  unfoldable pub burn_once : String → String → M Burner
  burn_once args options = do
    response ← local_run_cmd env "dd" args
    pure (if response.success then running options else ended)

  module _ (directory size : String) where
    -- A step of `burnWrite`.
    unfoldable pub burn_write : Burner → M Burner
    unfolding get_args burn_once join_path
    burn_write asking = do options ← get_args; pure (running options.write)
    burn_write (creating options) = pure (running options.write)
    burn_write (running options) =
        burn_once (write_args (write_file directory) size options) options
    burn_write ended = pure ended

    -- A step of `burnRead`; a file that cannot be created does not stop it.
    unfoldable pub burn_read : Burner → M Burner
    unfolding get_args burn_once join_path
    burn_read asking = do options ← get_args; pure (creating options)
    burn_read (creating options) = do
      local_run_cmd env "dd" (write_args (read_file directory) "6" options.create)
      pure (running options.read)
    burn_read (running options) = burn_once (read_args (read_file directory) size options) options
    burn_read ended = pure ended

    -- Steps of both, in the order of a schedule: `true` is the turn of `burnRead`.
    unfoldable pub burn_steps : List Bool → Burner → Burner → M (Burner × Burner)
    unfolding burn_read burn_write
    burn_steps [] reader writer = pure (reader, writer)
    burn_steps (true ∷ schedule) reader writer = do
      reader' ← burn_read reader
      burn_steps schedule reader' writer
    burn_steps (false ∷ schedule) reader writer = do
      writer' ← burn_write writer
      burn_steps schedule reader writer'

    -- `start` does not return, even if both goroutines have ended.
    unfoldable pub burn_start : Bool → Bool → List Bool → M Response
    unfolding burn_steps
    burn_start read write schedule = do
      burn_steps schedule (if read then asking else ended) (if write then asking else ended)
      λ t. hung t

  -- The files are removed before the processes are killed.
  unfoldable pub burn_stop : Context → Bool → Bool → String → M Response
  unfolding destroy join_path
  burn_stop ctx read write directory = do
    if read
        then local_run_cmd env "rm" ("-rf " +s read_file directory +s "*")
        else pure env.plain_success
    if write
        then local_run_cmd env "rm" ("-rf " +s write_file directory +s "*")
        else pure env.plain_success
    destroy env ctx (some "chaos_burnio") "disk burn"

  unfoldable pub burn_exec : System → Context → Flags → List Bool → M Response
  unfolding burn_start burn_stop flag flag_is_true
  burn_exec system ctx flags schedule = do
    missing ← local_all_commands env ("rm" ∷ "dd" ∷ [])
    let directory = if str_eq (flag flags "path") "" then "/" else flag flags "path"
    let read = flag_is_true flags "read"
    let write = flag_is_true flags "write"
    elim missing as (λ x. M Response) [
      | some response ↦ pure response
      | none ↦ elim ctx.destroy as (λ x. M Response) [
        | true ↦ burn_stop ctx (read || not write) (write || not read) directory
        | false ↦ λ t.
            if not (system.is_dir t directory)
            then pure
                (env.fail_with_flags parameter_illegal
                  ("path" ∷ directory ∷ "it must be a directory" ∷ []))
                t
            else if read || write
            then burn_start directory
                (if str_eq (flag flags "size") "" then "10" else flag flags "size") read write
                schedule t
            else pure (env.fail_with_flags parameter_less ("read|write" ∷ [])) t
      ]
    ]
