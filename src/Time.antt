-- ===== src/Time.antt =====
-- exec/time/time_travel.go: the system time is set forward or back.
pub mod Attempts
use chaosblade_exec_os.Prelude.{
  ◌≡◌, String, List, [], ◌∷◌, Option, none, some, Bool, true, false, str_eq, ◌&&◌, ◌||◌,
}
use chaosblade_exec_os.Prelude.Result.{Result, ok, err}
use chaosblade_exec_os.Go.Strings.{◌+s◌, contains}
use chaosblade_exec_os.Go.Strconv.{ℤ}
use chaosblade_exec_os.Channel.{
  Env, Response, Context, Flags, flag, parameter_less, parameter_invalid, os_cmd_exec_failed, M,
  pure, ◌>>=◌, run_cmd, is_command_available, is_all_commands_available,
}

-- The clock: time.ParseDuration, to nanoseconds, and the text of time.Now().Add(duration) in a
-- format.
pub record Clock : Type 0 where
  pub parse_duration : String → Result String ℤ
  pub time_after : ℤ → String → String

abbrev pub iso_format : String
iso_format = "2006-01-02 15:04:05"

abbrev pub time_formats : List String
time_formats =
    iso_format ∷ "01/02/2006 15:04:05" ∷ "2006-01-02T15:04:05" ∷ "Jan 2 15:04:05 2006" ∷ []

-- The arguments of `date`, and of `timedatectl`.
abbrev pub date_args : String → String
date_args time = "-s \"" +s time +s "\""

abbrev pub set_time_args : String → String
set_time_args time = "set-time \"" +s time +s "\""

-- A loop over the formats that ends with the response that it returns, or with the last error.
pub data Attempt : Type 0 where
  succeeded : Response → Attempt
  last_error : String → Attempt

module _ (env : Env) where
  -- NTP that is not supported is no error; `none` goes on.
  unfoldable pub set_ntp : String → M (Option Response)
  unfolding contains
  set_ntp args = do
    response ← run_cmd env "timedatectl" args
    elim response.success [
      | true ↦ pure none
      | false ↦ elim (contains response.err "NTP not supported") [
        | true ↦ pure none
        | false ↦ pure (some response)
      ]
    ]

  unfoldable pub time_stop : Bool → M Response
  unfolding set_ntp
  time_stop false = run_cmd env "hwclock" "--hctosys"
  time_stop true = do
    failed ← set_ntp "set-ntp true"
    elim failed [ some response ↦ pure response | none ↦ run_cmd env "hwclock" "--hctosys" ]

  -- The loop of `setSystemTime`, with the last error so far; `format` is targetTime.Format.
  unfoldable pub try_formats : (String → String) → List String → String → M Attempt
  try_formats format [] error = pure (last_error error)
  try_formats format (layout ∷ rest) error = do
    response ← run_cmd env "date" (date_args (format layout))
    elim response.success [
      | true ↦ pure (succeeded response)
      | false ↦ try_formats format rest ("format " +s layout +s " failed: " +s response.err)
    ]

  abbrev pub set_failure : String → Response
  set_failure error =
      env.fail_with_flags os_cmd_exec_failed
        (("Failed to set system time with all available methods. Last error: " +s error) ∷ [])

  -- After the formats: `timedatectl`, where it is available.
  unfoldable pub try_timedatectl : (String → String) → String → M Response
  try_timedatectl format error = do
    available ← is_command_available env "timedatectl"
    elim available [
      | false ↦ pure (set_failure error)
      | true ↦ do
        response ← run_cmd env "timedatectl" (set_time_args (format iso_format))
        elim response.success [
          | true ↦ pure response
          | false ↦ pure (set_failure ("timedatectl failed: " +s response.err))
        ]
    ]

  unfoldable pub set_system_time : (String → String) → M Response
  unfolding try_formats try_timedatectl
  set_system_time format = do
    attempt ← try_formats format time_formats "<nil>"
    elim attempt [
      | succeeded response ↦ pure response
      | last_error error ↦ try_timedatectl format error
    ]

  -- if disableNtp && timedatectlAvailable
  unfoldable pub disable_ntp_if : Bool → M (Option Response)
  unfolding set_ntp
  disable_ntp_if true = set_ntp "set-ntp false"
  disable_ntp_if false = pure none

  unfoldable pub time_start : Clock → String → Bool → Bool → M Response
  unfolding disable_ntp_if set_system_time
  time_start clock offset disable_ntp available = elim (clock.parse_duration offset) [
    | err e ↦ pure (env.fail_with_flags parameter_invalid ("offset" ∷ offset ∷ e ∷ []))
    | ok duration ↦ do
      failed ← disable_ntp_if (disable_ntp && available)
      elim failed [
        | some response ↦ pure response
        | none ↦ set_system_time (clock.time_after duration)
      ]
  ]

  unfoldable pub time_exec : Clock → Context → Flags → M Response
  unfolding time_stop time_start flag
  time_exec clock ctx flags = do
    missing ← is_all_commands_available env ("date" ∷ [])
    elim missing [
      | some response ↦ pure response
      | none ↦ do
        available ← is_command_available env "timedatectl"
        elim (str_eq (flag flags "offset") "") [
          | true ↦ pure (env.fail_with_flags parameter_less ("offset" ∷ []))
          | false ↦ elim ctx.destroy [
            | true ↦ time_stop available
            | false ↦
                time_start clock (flag flags "offset")
                  (str_eq (flag flags "disableNtp") "true" || str_eq (flag flags "disableNtp") "")
                  available
          ]
        ]
    ]
