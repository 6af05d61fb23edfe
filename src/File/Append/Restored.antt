-- ===== src/File/Append/Restored.antt =====
-- The backup of exec/file/file_append.go: `start` with a backup, and a destroy that deletes the
-- appended file.
use chaosblade_exec_os.Prelude.{
  ℕ, zero, suc, ◌≡◌, refl, ◌∙◌, String, ◌∷◌, Option, none, some, true, false, inl, inr, Bool-cases,
  Option-cases,
}
use chaosblade_exec_os.Prelude.Result.{Result-cases}
use chaosblade_exec_os.Go.Strings.{◌+s◌}
use chaosblade_exec_os.Go.Path.{dir}
use chaosblade_exec_os.Channel.{Env, Response, Context, run, Trace, returned, panicked, M, pure}
use chaosblade_exec_os.Channel.Laws.{Returns, Returns-bind, Returns-weaken, AnswersTexts}
use chaosblade_exec_os.Exec.{check_filepath_exists}
use chaosblade_exec_os.Script.Store.{exists_cmd}
use chaosblade_exec_os.File.{Codec, two_files}
use chaosblade_exec_os.File.Template.{parse_random}
use chaosblade_exec_os.File.Append.{
  Chance, AppendArgs, backup_uid, backup_file, echo_args, append_lines, decoded, append_content,
  make_parent, append_file, back_up, back_up_if, append_on_ticks, append_start, restore_backup,
  with_backup_uid, handle_one_time_operation,
}
use chaosblade_exec_os.File.Append.Preserved.{check-one_call}

-- The file and its backup after some calls, `none` where there is no file, and what the commands do
-- to them.
pub record Backups (env : Env) (file backup : String) : Type 0 where
  pub content : Trace → Option String
  pub kept : Trace → Option String
  pub look_content : (t : Trace) (p : String) → content (run (exists_cmd p) "" ∷ t) ≡ content t
  pub look_kept : (t : Trace) (p : String) → kept (run (exists_cmd p) "" ∷ t) ≡ kept t
  -- a file that is there is found, and a backup that is not there is not
  pub finds_content :
      (t : Trace) (s : String)
      → content t ≡ some s
      → check_filepath_exists env file t ≡ returned true (run (exists_cmd file) "" ∷ t)
  pub finds_kept :
      (t : Trace) (s : String)
      → kept t ≡ some s
      → check_filepath_exists env backup t ≡ returned true (run (exists_cmd backup) "" ∷ t)
  pub misses_kept :
      (t : Trace)
      → kept t ≡ none
      → check_filepath_exists env backup t ≡ returned false (run (exists_cmd backup) "" ∷ t)
  -- a copy that succeeds has the content of the file that is copied
  pub copy_kept :
      (t : Trace) (s : String)
      → (env.answer t "cp" (two_files file backup)).success ≡ true
      → content t ≡ some s
      → kept (run "cp" (two_files file backup) ∷ t) ≡ some s
  pub restore_content :
      (t : Trace) (s : String)
      → (env.answer t "cp" (two_files backup file)).success ≡ true
      → kept t ≡ some s
      → content (run "cp" (two_files backup file) ∷ t) ≡ some s
  pub echo_kept : (t : Trace) (args : String) → kept (run "echo" args ∷ t) ≡ kept t
  pub mkdir_kept : (t : Trace) (args : String) → kept (run "mkdir" args ∷ t) ≡ kept t
  pub rm_content : (t : Trace) → content (run "rm" ("\"" +s backup +s "\"") ∷ t) ≡ content t

-- A response that is not nil.
abbrev IsSome : Option Response → Type 0
IsSome none = ⊥
IsSome (some r) = Unit

module _ (env : Env) (codec : Codec) (chance : Chance) (texts : AnswersTexts env) (a : AppendArgs)
    (uid : String) (files : Backups env a.filepath (backup_file a.filepath uid))
    (backs_up : (t : Trace)
      → (env.answer t "cp" (two_files a.filepath (backup_file a.filepath uid))).success ≡ true)
    (copies_back : (t : Trace)
      → (env.answer t "cp" (two_files (backup_file a.filepath uid) a.filepath)).success
        ≡ true) where
  abbrev Appended : Trace → Option Response → Trace → Type 0
  Appended t r t' = IsSome r × (files.kept t' ≡ files.kept t)

  lines-Appended :
      (count : ℕ) (content : String) (r : Response) (t : Trace)
      → Returns (Appended t) (append_lines env codec chance a count content (some r) t)
  unfolding append_lines
  lines-Appended zero content r t = (tt, refl)
  lines-Appended (suc count) content r t =
      elim (Result-cases (parse_random (chance.draw t) content)) [
        | inl (e, fails) ↦ rw (fails, Returns) (tt, refl)
        | inr (line, drawn) ↦
            rw (drawn, Returns)
              (Returns-weaken _ (Appended t)
                (append_lines env codec chance a count line _
                  (run "echo" (echo_args env codec chance a line) ∷ t))
                (lines-Appended count line _ _)
                λ r' t' (is, same). (is, same ∙ files.echo_kept t _))
      ]

  first_lines-Appended :
      (n : ℕ) (content : String) (t : Trace)
      → Returns (Appended t) (append_lines env codec chance a (suc n) content none t)
  unfolding append_lines
  first_lines-Appended n content t = elim (Result-cases (parse_random (chance.draw t) content)) [
    | inl (e, fails) ↦ rw (fails, Returns) (tt, refl)
    | inr (line, drawn) ↦
        rw (drawn, Returns)
          (Returns-weaken _ (Appended t)
            (append_lines env codec chance a n line _
              (run "echo" (echo_args env codec chance a line) ∷ t))
            (lines-Appended n line _ _) λ r' t' (is, same). (is, same ∙ files.echo_kept t _))
  ]

  content-Appended :
      (n : ℕ) (t : Trace) → Returns (Appended t) (append_content env codec chance a (suc n) t)
  unfolding append_content
  content-Appended n t = elim (Option-cases (decoded env codec chance a)) [
    | inl fails ↦ rw (fails, Returns) (tt, refl)
    | inr (content, is) ↦ rw (is, Returns) (first_lines-Appended n _ t)
  ]

  parent-keeps :
      (parent : String) (t : Trace)
      → Returns (λ r t'. files.kept t' ≡ files.kept t) (make_parent env codec chance parent t)
  unfolding make_parent
  parent-keeps parent t =
      Returns-bind (λ b t'. t' ≡ run (exists_cmd parent) "" ∷ t)
        (λ r t'. files.kept t' ≡ files.kept t) (check_filepath_exists env parent t) _
        (check-one_call env codec chance parent t texts)
        λ b t' one. elim (Bool-cases b) [
          | inl there ↦ rw (there, Returns) (rw one (files.look_kept t parent))
          | inr gone ↦ rw (gone, Returns) (rw one (files.mkdir_kept _ _ ∙ files.look_kept t parent))
        ]

  file-Appended :
      (n : ℕ) (t : Trace) → Returns (Appended t) (append_file env codec chance a (suc n) t)
  unfolding append_file
  file-Appended n t =
      Returns-bind (λ r t'. files.kept t' ≡ files.kept t) (Appended t)
        (make_parent env codec chance (dir a.filepath) t) _ (parent-keeps (dir a.filepath) t)
        λ r t' same. elim (Option-cases r) [
          | inr (response, fails) ↦ rw (fails, Returns) (tt, same)
          | inl made ↦
              rw (made, Returns)
                (Returns-weaken _ (Appended t) (append_content env codec chance a (suc n) t')
                  (content-Appended n t') λ r' t'' (is, kept). (is, kept ∙ same))
        ]

  ticks-keep :
      (n ticks : ℕ) (t : Trace)
      → Returns
          (λ r t'. files.kept t' ≡ files.kept t)
          (append_on_ticks env codec chance a (suc n) ticks t)
  unfolding append_on_ticks
  ticks-keep n zero t = refl
  ticks-keep n (suc ticks) t =
      Returns-bind (Appended t) (λ r t'. files.kept t' ≡ files.kept t)
        (append_file env codec chance a (suc n) t) _ (file-Appended n t)
        λ r t' (is, same).
          Returns-weaken _ (λ r t''. files.kept t'' ≡ files.kept t)
            (append_on_ticks env codec chance a (suc n) ticks t') (ticks-keep n ticks t')
            λ r' t'' later. later ∙ same

  backed_up :
      (t : Trace) (s : String)
      → files.content t ≡ some s
      → files.kept t ≡ none
      → Returns (λ r t'. files.kept t' ≡ some s) (back_up env codec chance a.filepath uid t)
  unfolding back_up
  backed_up t s was fresh =
      let here = files.look_kept t a.filepath ∙ fresh in
      let still = files.look_content t a.filepath ∙ was in
      rw (files.finds_content t s was, Returns)
        (rw (files.misses_kept _ here, Returns)
          (files.copy_kept _ s (backs_up _) (files.look_content _ _ ∙ still)))

  -- The backup has the content that the file had, whatever was appended, at each number of ticks.
  start-backed_up :
      (ctx : Context) (n interval ticks : ℕ) (t : Trace) (s : String)
      → a.enable_backup ≡ true
      → backup_uid env ctx ≡ some uid
      → files.content t ≡ some s
      → files.kept t ≡ none
      → Returns
          (λ r t'. files.kept t' ≡ some s)
          (append_start env codec chance ctx a (suc n) interval ticks t)
  unfolding append_start back_up_if
  start-backed_up ctx n interval ticks t s enabled known was fresh =
      rw (enabled, Returns)
        (rw (known, Returns)
          (Returns-bind (λ r t'. files.kept t' ≡ some s) (λ r t'. files.kept t' ≡ some s)
            (back_up env codec chance a.filepath uid t) _ (backed_up t s was fresh)
            λ r t1 kept.
              Returns-bind (Appended t1) (λ r t'. files.kept t' ≡ some s)
                (append_file env codec chance a (suc n) t1) _ (file-Appended n t1)
                λ r' t2 (is, same). appended r' t2 is (same ∙ kept)))
    where
      ticked :
          (wait : ℕ) (t2 : Trace)
          → files.kept t2 ≡ some s
          → Returns
              (λ r t'. files.kept t' ≡ some s)
              ((elim wait as (λ x. M (Option Response)) [
                | zero ↦ pure none
                | suc m ↦ append_on_ticks env codec chance a (suc n) ticks
              ])
                t2)
      ticked zero t2 kept = kept
      ticked (suc m) t2 kept =
          Returns-weaken _ (λ r t''. files.kept t'' ≡ some s)
            (append_on_ticks env codec chance a (suc n) ticks t2) (ticks-keep n ticks t2)
            λ r' t'' later. later ∙ kept

      appended :
          (r : Option Response) (t2 : Trace)
          → IsSome r
          → files.kept t2 ≡ some s
          → Returns
              (λ r t'. files.kept t' ≡ some s)
              ((elim r as (λ x. M (Option Response)) [
                | none ↦ λ t. panicked t
                | some r ↦ elim r.success as (λ x. M (Option Response)) [
                  | false ↦ pure (some r)
                  | true ↦ elim interval as (λ x. M (Option Response)) [
                    | zero ↦ pure none
                    | suc m ↦ append_on_ticks env codec chance a (suc n) ticks
                  ]
                ]
              ])
                t2)
      appended none t2 is kept = absurd is
      appended (some r) t2 is kept = elim (Bool-cases r.success) [
        | inr fails ↦ rw (fails, Returns) kept
        | inl good ↦ rw (good, Returns) (ticked interval t2 kept)
      ]

  stop-restores :
      (ctx : Context) (t : Trace) (s : String)
      → backup_uid env ctx ≡ some uid
      → files.kept t ≡ some s
      → Returns
          (λ r t'. (r.success ≡ true) × (files.content t' ≡ some s))
          (handle_one_time_operation env codec chance ctx a.filepath true true t)
  unfolding handle_one_time_operation with_backup_uid restore_backup
  stop-restores ctx t s known kept =
      let good = copies_back (run (exists_cmd (backup_file a.filepath uid)) "" ∷ t) in
      let now =
        files.restore_content (run (exists_cmd (backup_file a.filepath uid)) "" ∷ t) s good
          (files.look_kept t _ ∙ kept) in
      rw (known, Returns)
        (rw (files.finds_kept t s kept, Returns)
          (rw (good, Returns) (env.return_success_succeeds _, files.rm_content _ ∙ now)))

  -- For an experiment whose uid is known, with a backup enabled, for a file that exists and has no
  -- backup yet, and where the copies to the backup and back succeed: the start of an append returns
  -- after any number of ticks, and handleOneTimeOperation, called to delete the file and with the
  -- backup enabled, then returns with success and gives the file the content that it had, also where
  -- lines of the append failed.
  pub append_start-restored :
      (ctx : Context) (n interval ticks : ℕ) (t : Trace) (s : String)
      → a.enable_backup ≡ true
      → backup_uid env ctx ≡ some uid
      → files.content t ≡ some s
      → files.kept t ≡ none
      → Returns
          (λ r t'.
            Returns
              (λ r' t''. (r'.success ≡ true) × (files.content t'' ≡ files.content t))
              (handle_one_time_operation env codec chance ctx a.filepath true true t'))
          (append_start env codec chance ctx a (suc n) interval ticks t)
  append_start-restored ctx n interval ticks t s enabled known was fresh =
      Returns-weaken (λ r t'. files.kept t' ≡ some s) _
        (append_start env codec chance ctx a (suc n) interval ticks t)
        (start-backed_up ctx n interval ticks t s enabled known was fresh)
        λ r t' kept. rw was (stop-restores ctx t' s known kept)
