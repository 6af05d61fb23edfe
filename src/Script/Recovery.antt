-- ===== src/Script/Recovery.antt =====
-- A script is as before after an experiment: `start` of script_delay.go and script_exit.go whose
-- insertion fails, and `recoverScript` after one that succeeds.
use chaosblade_exec_os.Prelude.{
  ◌≡◌, refl, ◌∙◌, sym, String, List, [], ◌∷◌, some, Bool, true, false, inl, inr, arith, Bool-cases,
}
use chaosblade_exec_os.Go.Strings.{◌+s◌, split, trim_space, is_empty}
use chaosblade_exec_os.Channel.{
  Env, Response, run, Trace, returned, M, pure, ◌>>=◌, ◌>>◌, run_cmd, backfile_exists,
}
use chaosblade_exec_os.Channel.Laws.{Returns, Returns-bind, Returns-weaken, AnswersTexts}
use chaosblade_exec_os.Exec.{check_filepath_exists}
use chaosblade_exec_os.Script.{
  get_back_file, copy_args, back_script, recover_script, insert_at, insert_content_to_script_by,
  start_with_content,
}
use chaosblade_exec_os.Script.Store.{Store, exists_cmd}

module _ (env : Env) (texts : AnswersTexts env) (script : String) (store : Store env script) where
  -- A file is looked for with one command.
  check-Returns :
      (p : String) (t : Trace)
      → Returns (λ b t'. t' ≡ run (exists_cmd p) "" ∷ t) (check_filepath_exists env p t)
  unfolding check_filepath_exists
  check-Returns p t = elim (Bool-cases (env.answer t (exists_cmd p) "").success) [
    | inr fails ↦ rw (fails, Returns) refl
    | inl good ↦
        let (text, e) = texts t (exists_cmd p) "" good in rw (good, Returns) (rw (e, Returns) refl)
  ]

  -- A backup that exists is found.
  check-finds :
      (t : Trace) (s : String)
      → store.backup t ≡ some s
      → check_filepath_exists env (get_back_file script) t
        ≡ returned true (run (exists_cmd (get_back_file script)) "" ∷ t)
  unfolding check_filepath_exists
  check-finds t s kept =
      let (good, (text, e, is_true)) = store.reports t s kept in rw good (rw e (rw is_true refl))

  -- The insertion returns and leaves the backup.
  insert_at-keeps :
      (f c : String) (lines : List String) (t : Trace)
      → Returns (λ r t'. store.backup t' ≡ store.backup t) (insert_at env f c script lines t)
  unfolding insert_at
  insert_at-keeps f c [] t = refl
  insert_at-keeps f c (first ∷ second ∷ rest) t = refl
  insert_at-keeps f c (line ∷ []) t = elim (Bool-cases (is_empty (trim_space line))) [
    | inl blank ↦ rw (blank, Returns) refl
    | inr found ↦ rw (found, Returns) (store.sed_backup _ _)
  ]

  insert-keeps :
      (f c : String) (t : Trace)
      → Returns
          (λ r t'. store.backup t' ≡ store.backup t)
          (insert_content_to_script_by env f c script t)
  unfolding insert_content_to_script_by
  insert-keeps f c t =
      elim (Bool-cases
        (env.answer t "awk" ("'/" +s f +s " *\\(\\) *\\{/{print NR}' " +s script)).success) [
          | inr fails ↦ rw (fails, Returns) (store.awk_backup _ _)
          | inl good ↦
              let (text, e) =
                texts t "awk" ("'/" +s f +s " *\\(\\) *\\{/{print NR}' " +s script) good in
              rw (good, Returns)
                (rw (e, Returns)
                  (Returns-weaken _ _ (insert_at env f c script (split b'\n' (trim_space text)) _)
                    (insert_at-keeps f c (split b'\n' (trim_space text)) _)
                    λ r t' same. same ∙ store.awk_backup _ _))
        ]

  -- What a start leaves: after a failure the script is as before, after a success the backup has
  -- the content that the script had.
  abbrev pub Kept : Trace → Response → Trace → Type 0
  Kept t r t' =
      (r.success ≡ false → store.content t' ≡ store.content t)
      × (r.success ≡ true → (s : String) × (store.content t ≡ some s) × (store.backup t' ≡ some s))

  back_script-Kept : (t : Trace) → Returns (Kept t) (back_script env script t)
  unfolding back_script
  back_script-Kept t =
      Returns-bind _ (Kept t) (check_filepath_exists env (get_back_file script) t) _
        (check-Returns (get_back_file script) t) checked
    where
      unchanged :
          (t' : Trace)
          → t' ≡ run (exists_cmd (get_back_file script)) "" ∷ t
          → store.content t' ≡ store.content t
      unchanged t' same = rw same (store.exists_content _ _)

      checked :
          (b : Bool) (t' : Trace)
          → t' ≡ run (exists_cmd (get_back_file script)) "" ∷ t
          → Returns (Kept t) (
              (elim b as (λ x. M Response) [
                | true ↦ pure (env.fail_with_flags backfile_exists (get_back_file script ∷ []))
                | false ↦ run_cmd env "cat" (copy_args script (get_back_file script))
              ])
                t')
      checked true t' same = (
        λ fails. rw same (store.exists_content _ _),
        λ good.
            ground (arith, env.fail_with_flags_fails backfile_exists (get_back_file script ∷ [])),
      )
      checked false t' same = (
        λ fails. store.copy_content t' ∙ unchanged t' same,
        λ good. let (s, c, b) = store.copy_backup t' good in (s, sym (unchanged t' same) ∙ c, b),
      )

  module _
      (restores : (t : Trace) (s : String)
        → store.backup t ≡ some s
        → (env.answer t "cat" (copy_args (get_back_file script) script)).success ≡ true) where
    recover_script-restored :
        (t : Trace) (s : String)
        → store.backup t ≡ some s
        → Returns (λ r t'. store.content t' ≡ some s) (recover_script env script t)
    unfolding recover_script
    recover_script-restored t s kept =
        let here = store.exists_backup t (get_back_file script) ∙ kept in
        let good = restores (run (exists_cmd (get_back_file script)) "" ∷ t) s here in
        rw (check-finds t s kept, Returns)
          (rw (good, Returns) (store.rm_content _ ∙ (store.restore_content _ good ∙ here)))

    -- Where a backup can be copied back, `start` returns; if it fails, the script is as before, and
    -- if it succeeds, the backup has the content of the script, and `recoverScript` returns and
    -- restores it.
    pub start_with_content-Kept :
        (f c : String) (t : Trace)
        → Returns
            (λ r t'.
              (r.success ≡ false → store.content t' ≡ store.content t)
              × (r.success ≡ true
                  → Returns
                      (λ r' t''. store.content t'' ≡ store.content t)
                      (recover_script env script t')))
            (start_with_content env script f c t)
    unfolding start_with_content
    start_with_content-Kept f c t =
        Returns-bind (Kept t) _ (back_script env script t) _ (back_script-Kept t) backed_up
      where
        Restored : Response → Trace → Type 0
        Restored r t' =
            (r.success ≡ false → store.content t' ≡ store.content t)
            × (r.success ≡ true
                → Returns (λ r' t''. store.content t'' ≡ store.content t)
                    (recover_script env script t'))

        inserted :
            (s : String)
            → store.content t ≡ some s
            → (r : Response) (t' : Trace) → store.backup t' ≡ some s
            → Returns Restored (
                (elim r.success as (λ x. M Response) [
                  | false ↦ recover_script env script >> pure r
                  | true ↦ pure r
                ])
                  t')
        inserted s was r t' kept = elim (Bool-cases r.success) [
          | inl good ↦
              rw (good, Returns) (λ fails. cc, λ _. rw was (recover_script-restored t' s kept))
          | inr fails ↦
              rw (fails, Returns)
                (Returns-bind (λ r' t''. store.content t'' ≡ some s) Restored
                  (recover_script env script t') _ (recover_script-restored t' s kept)
                  λ r' t'' now. (λ _. now ∙ sym was, λ good. cc))
        ]

        backed_up :
            (r : Response) (t' : Trace)
            → Kept t r t'
            → Returns Restored (
                (elim r.success as (λ x. M Response) [
                  | false ↦ pure r
                  | true ↦ insert_content_to_script_by env f c script >>= λ response.
                      elim response.success as (λ x. M Response) [
                        | false ↦ recover_script env script >> pure response
                        | true ↦ pure response
                      ]
                ])
                  t')
        backed_up r t' (failing, succeeding) = elim (Bool-cases r.success) [
          | inr fails ↦ rw (fails, Returns) (λ _. failing fails, λ good. cc)
          | inl good ↦
              let (s, was, kept) = succeeding good in
              rw (good, Returns)
                (Returns-bind _ Restored (insert_content_to_script_by env f c script t') _
                  (insert-keeps f c t') λ r' t'' same. inserted s was r' t'' (same ∙ kept))
        ]
