-- ===== src/File/Chmod/Noted.antt =====
-- What exec/file/file_chmod.go notes before it changes the mode of a file.
use chaosblade_exec_os.Prelude.{
  ◌≡◌, refl, String, [], ◌∷◌, some, Bool, true, false, ◌⊎◌, inl, inr, Bool-cases,
}
use chaosblade_exec_os.Go.Strings.{◌+s◌}
use chaosblade_exec_os.Channel.{Env, Response, run, Trace, M, pure, run_cmd, parameter_invalid}
use chaosblade_exec_os.Channel.Laws.{Returns, Returns-bind, AnswersTexts}
use chaosblade_exec_os.Exec.{check_filepath_exists}
use chaosblade_exec_os.File.Chmod.{tmp_file_chmod, note_and_change, start_chmod_file}

module _ (env : Env) (filepath mark : String) where
  abbrev pub stat_args : String
  stat_args = "-c \"%a\" " +s filepath

  abbrev pub note_args : String → String
  note_args origin = "'" +s filepath +s ":" +s origin +s "' >> " +s tmp_file_chmod

  -- The mode was changed last, after the mode that `stat` reported was noted with success; the
  -- response is the answer to the change.
  abbrev pub NotedAndChanged : Response → Trace → Type 0
  NotedAndChanged r t =
      (older : Trace) × ((origin : String) × ((t
            ≡ run "chmod" (mark +s " \"" +s filepath +s "\"")
              ∷ run "echo" (note_args origin)
              ∷ run "stat" stat_args
              ∷ older)
          × (((env.answer older "stat" stat_args).result ≡ some origin)
              × (((env.answer (run "stat" stat_args ∷ older) "echo" (note_args origin)).success
                    ≡ true)
                  × (r
                      ≡ env.answer (run "echo" (note_args origin) ∷ run "stat" stat_args ∷ older)
                          "chmod" (mark +s " \"" +s filepath +s "\""))))))

  abbrev pub FailedOrNoted : Response → Trace → Type 0
  FailedOrNoted r t = (r.success ≡ false) ⊎ NotedAndChanged r t

  check_filepath_exists-Returns :
      AnswersTexts env
      → (t : Trace) → Returns (λ b t'. Unit {0}) (check_filepath_exists env filepath t)
  unfolding check_filepath_exists
  check_filepath_exists-Returns texts t =
      elim (Bool-cases
        (env.answer t ("[ -e " +s filepath +s " ] && echo true || echo false") "").success) [
          | inr no_answer ↦ rw no_answer tt
          | inl answered ↦
              let (text, e) =
                texts t ("[ -e " +s filepath +s " ] && echo true || echo false") "" answered in
              rw answered (rw e tt)
        ]

  abbrev searched : Trace → Trace
  searched t = run "grep" ("-q \"" +s filepath +s ":\" \"" +s tmp_file_chmod +s "\"") ∷ t

  note_and_change-FailedOrNoted :
      (t : Trace) → AnswersTexts env → Returns FailedOrNoted (note_and_change env filepath mark t)
  unfolding note_and_change
  note_and_change-FailedOrNoted t texts =
      elim (Bool-cases
        (env.answer t "grep" ("-q \"" +s filepath +s ":\" \"" +s tmp_file_chmod +s "\"")).success) [
          | inl noted ↦ rw (noted, Returns) (inl (env.fail_with_flags_fails _ _))
          | inr fresh ↦
              rw (fresh, Returns)
                (elim (Bool-cases (env.answer (searched t) "stat" stat_args).success) [
                  | inr fails ↦ rw (fails, Returns) (inl (env.fail_with_flags_fails _ _))
                  | inl known ↦
                      let (origin, e) = texts (searched t) "stat" stat_args known in
                      rw (known, Returns) (rw (e, Returns) (note (searched t) origin e))
                ])
        ]
    where
      note :
          (older : Trace) (origin : String)
          → (env.answer older "stat" stat_args).result ≡ some origin
          → Returns FailedOrNoted (
              (elim (env.answer (run "stat" stat_args ∷ older) "echo" (note_args origin)).success
                  as (λ x. M Response) [
                    | false ↦
                        pure (env.answer (run "stat" stat_args ∷ older) "echo" (note_args origin))
                    | true ↦ run_cmd env "chmod" (mark +s " \"" +s filepath +s "\"")
                  ])
                (run "echo" (note_args origin) ∷ run "stat" stat_args ∷ older))
      note older origin e =
          elim (Bool-cases
            (env.answer (run "stat" stat_args ∷ older) "echo" (note_args origin)).success) [
              | inr fails ↦ rw (fails, Returns) (inl fails)
              | inl good ↦ rw (good, Returns) (inr (older, (origin, (refl, (e, (good, refl))))))
            ]

  -- On a channel whose successes carry a text, the start of `chmod` returns, and it fails unless it
  -- has noted the mode that `stat` reported before its last command, which changes the mode.
  pub start_chmod_file-FailedOrNoted :
      (t : Trace) → AnswersTexts env → Returns FailedOrNoted (start_chmod_file env filepath mark t)
  unfolding start_chmod_file
  start_chmod_file-FailedOrNoted t texts =
      Returns-bind (λ b t'. Unit {0}) FailedOrNoted (check_filepath_exists env filepath t) _
        (check_filepath_exists-Returns texts t) checked
    where
      checked :
          (b : Bool) (t' : Trace)
          → Unit {0}
          → Returns FailedOrNoted (
              (elim b as (λ x. M Response) [
                | false ↦ pure (
                    env.fail_with_flags parameter_invalid
                      ("filepath" ∷ filepath ∷ "the file does not exist" ∷ []))
                | true ↦ note_and_change env filepath mark
              ])
                t')
      checked true t' _ = note_and_change-FailedOrNoted t' texts
      checked false t' _ = inl (env.fail_with_flags_fails _ _)
