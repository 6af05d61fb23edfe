-- ===== src/Time/Attempts.antt =====
-- When `setSystemTime` of exec/time/time_travel.go fails.
use chaosblade_exec_os.Prelude.{
  ◌≡◌, refl, String, List, [], ◌∷◌, true, false, ◌⊎◌, inl, inr, Bool-cases,
}
use chaosblade_exec_os.Channel.{Env, Response, run, command_available, Trace, M, pure}
use chaosblade_exec_os.Channel.Laws.{Returns, Returns-bind, Returns-weaken}
use chaosblade_exec_os.Time.{
  iso_format, time_formats, date_args, set_time_args, Attempt, succeeded, last_error, try_formats,
  try_timedatectl, set_system_time,
}

module _ (env : Env) (format : String → String) where
  -- The calls after `date` was tried with some formats, one after the other.
  abbrev pub tried : List String → Trace → Trace
  tried [] t = t
  tried (layout ∷ rest) t = tried rest (run "date" (date_args (format layout)) ∷ t)

  -- `date` fails for each of the formats, one after the other.
  abbrev pub AllFail : List String → Trace → Type 0
  AllFail [] t = Unit
  AllFail (layout ∷ rest) t =
      ((env.answer t "date" (date_args (format layout))).success ≡ false)
      × AllFail rest (run "date" (date_args (format layout)) ∷ t)

  -- The response is what the channel answered to the last call, and is a success.
  abbrev pub LastSucceeded : Response → Trace → Type 0
  LastSucceeded r t =
      (r.success ≡ true)
      × ((script : String) × (args : String) × (older : Trace) × (t ≡ run script args ∷ older)
          × (r ≡ env.answer older script args))

  abbrev Tried : List String → Trace → Attempt → Trace → Type 0
  Tried formats t (succeeded r) t' = LastSucceeded r t'
  Tried formats t (last_error e) t' = (t' ≡ tried formats t) × AllFail formats t

  try_formats-Tried :
      (formats : List String) (e : String) (t : Trace)
      → Returns (Tried formats t) (try_formats env format formats e t)
  unfolding try_formats
  try_formats-Tried [] e t = (refl, tt)
  try_formats-Tried (layout ∷ rest) e t =
      elim (Bool-cases (env.answer t "date" (date_args (format layout))).success) [
        | inl good ↦ rw (good, Returns) (good, ("date", date_args (format layout), t, refl, refl))
        | inr fails ↦
            rw (fails, Returns)
              (Returns-weaken (Tried rest (run "date" (date_args (format layout)) ∷ t)) _
                (try_formats env format rest _ _) (try_formats-Tried rest _ _) (further fails))
      ]
    where
      further :
          (env.answer t "date" (date_args (format layout))).success ≡ false
          → (attempt : Attempt) (t' : Trace)
          → Tried rest (run "date" (date_args (format layout)) ∷ t) attempt t'
          → Tried (layout ∷ rest) t attempt t'
      further fails (succeeded r) t' h = h
      further fails (last_error error) t' (same, all) = (same, (fails, all))

  -- What a response of `setSystemTime` says: a success is the answer to the last call; a failure
  -- means that `date` failed for all four formats and that `timedatectl` is missing or failed too.
  abbrev pub SetOrAllFailed : Trace → Response → Trace → Type 0
  SetOrAllFailed t r t' =
      LastSucceeded r t'
      ⊎ ((r.success ≡ false)
          × AllFail time_formats t
          × ((env.has_command (tried time_formats t) "timedatectl" ≡ false)
              ⊎ ((env.answer (command_available "timedatectl" ∷ tried time_formats t) "timedatectl"
                    (set_time_args (format iso_format))).success
                  ≡ false)))

  try_timedatectl-SetOrAllFailed :
      (e : String) (t : Trace)
      → AllFail time_formats t
      → Returns (SetOrAllFailed t) (try_timedatectl env format e (tried time_formats t))
  unfolding try_timedatectl
  try_timedatectl-SetOrAllFailed e t all =
      elim (Bool-cases (env.has_command (tried time_formats t) "timedatectl")) [
        | inr missing ↦
            rw (missing, Returns) (inr (env.fail_with_flags_fails _ _, all, inl missing))
        | inl available ↦
            elim (Bool-cases
              (env.answer (command_available "timedatectl" ∷ tried time_formats t) "timedatectl"
                (set_time_args (format iso_format))).success) [
                  | inl good ↦
                      rw (available, Returns)
                        (rw (good, Returns)
                          (inl (
                            good,
                            ("timedatectl", set_time_args (format iso_format), _, refl, refl),
                          )))
                  | inr fails ↦
                      rw (available, Returns)
                        (rw (fails, Returns) (inr (env.fail_with_flags_fails _ _, all, inr fails)))
                ]
      ]

  -- `setSystemTime` returns. If it succeeds, its response is the answer to its last call; if it
  -- fails, `date` failed for each of the four formats in turn, and `timedatectl` was missing or
  -- failed after that.
  pub set_system_time-SetOrAllFailed :
      (t : Trace) → Returns (SetOrAllFailed t) (set_system_time env format t)
  unfolding set_system_time
  set_system_time-SetOrAllFailed t =
      Returns-bind (Tried time_formats t) (SetOrAllFailed t)
        (try_formats env format time_formats "<nil>" t) _ (try_formats-Tried time_formats "<nil>" t)
        finished
    where
      finished :
          (attempt : Attempt) (t' : Trace)
          → Tried time_formats t attempt t'
          → Returns (SetOrAllFailed t) (
              (elim attempt as (λ x. M Response) [
                | succeeded response ↦ pure response
                | last_error error ↦ try_timedatectl env format error
              ])
                t')
      finished (succeeded r) t' h = inl h
      finished (last_error e) t' (same, all) =
          rw (same, Returns) (try_timedatectl-SetOrAllFailed e t all)
