-- ===== src/File/Append/Preserved.antt =====
-- `handleOneTimeOperation` of exec/file/file_append.go where the file is not to be deleted.
use chaosblade_exec_os.Prelude.{
  ◌≡◌, refl, String, ◌∷◌, none, some, Bool, true, false, ◌⊎◌, inl, inr, Bool-cases, Option-cases,
}
use chaosblade_exec_os.Channel.{Env, Response, Context, run, Trace}
use chaosblade_exec_os.Channel.Laws.{Returns, Returns-bind, AnswersTexts}
use chaosblade_exec_os.Exec.{check_filepath_exists}
use chaosblade_exec_os.Script.Store.{exists_cmd}
use chaosblade_exec_os.File.{Codec}
use chaosblade_exec_os.File.Append.{
  Chance, backup_uid, backup_file, keep_backup, with_backup_uid, handle_one_time_operation,
}

module _ (env : Env) (codec : Codec) (chance : Chance) where
  -- A file is looked for with one command.
  pub check-one_call :
      (p : String) (t : Trace)
      → AnswersTexts env
      → Returns (λ b t'. t' ≡ run (exists_cmd p) "" ∷ t) (check_filepath_exists env p t)
  unfolding check_filepath_exists
  check-one_call p t texts = elim (Bool-cases (env.answer t (exists_cmd p) "").success) [
    | inr fails ↦ rw (fails, Returns) refl
    | inl good ↦
        let (text, e) = texts t (exists_cmd p) "" good in rw (good, Returns) (rw (e, Returns) refl)
  ]

  success_never_fails : {A : Type 0} (s : String) → (env.return_success s).success ≡ false → A
  success_never_fails s fails = let good = env.return_success_succeeds s in cc

  -- No command but one that looks for the backup was run, and a failure means that a backup was
  -- asked for by an experiment without a uid.
  abbrev pub OnlyLooked : Context → String → Bool → Trace → Response → Trace → Type 0
  OnlyLooked ctx filepath enable_backup t r t' =
      ((t' ≡ t)
        ⊎ ((uid : String) × (backup_uid env ctx ≡ some uid)
            × (t' ≡ run (exists_cmd (backup_file filepath uid)) "" ∷ t)))
      × (r.success ≡ false → (enable_backup ≡ true) × (backup_uid env ctx ≡ none))

  -- Where the file is not to be deleted, `handleOneTimeOperation` returns, and it runs no command
  -- that changes a file: at most one, which looks for the backup. So a backup that is enabled is not
  -- copied back. It fails only where a backup is enabled and the experiment has no uid.
  pub handle_one_time_operation-OnlyLooked :
      (ctx : Context) (filepath : String) (enable_backup : Bool) (t : Trace)
      → AnswersTexts env
      → Returns
          (OnlyLooked ctx filepath enable_backup t)
          (handle_one_time_operation env codec chance ctx filepath enable_backup false t)
  unfolding handle_one_time_operation with_backup_uid keep_backup
  handle_one_time_operation-OnlyLooked ctx filepath false t texts =
      (inl refl, λ fails. success_never_fails _ fails)
  handle_one_time_operation-OnlyLooked ctx filepath true t texts =
      elim (Option-cases (backup_uid env ctx)) [
        | inl unknown ↦ rw (unknown, Returns) (inl refl, λ fails. (refl, unknown))
        | inr (uid, known) ↦
            rw (known, Returns)
              (Returns-bind (λ b t'. t' ≡ run (exists_cmd (backup_file filepath uid)) "" ∷ t)
                (OnlyLooked ctx filepath true t)
                (check_filepath_exists env (backup_file filepath uid) t) _
                (check-one_call (backup_file filepath uid) t texts)
                λ b t' one. (inr (uid, known, one), λ fails. success_never_fails _ fails))
      ]
