-- ===== src/Disk/Fill/CleanedUp.antt =====
-- What a failed `startFill` of exec/disk/disk_fill.go leaves.
use chaosblade_exec_os.Prelude.{
  ◌≡◌, refl, String, ◌∷◌, Bool, true, false, ◌⊎◌, inl, inr, str_eq, Bool-cases, Option-cases,
}
use chaosblade_exec_os.Go.Strings.{◌+s◌}
use chaosblade_exec_os.Channel.{
  Env, Response, run, Trace, returned, M, pure, ◌>>=◌, run_cmd, command_available,
}
use chaosblade_exec_os.Channel.Laws.{Returns, Returns-bind, Returns-value, AnswersTexts}
use chaosblade_exec_os.Exec.{check_filepath_exists}
use chaosblade_exec_os.Script.Store.{exists_cmd}
use chaosblade_exec_os.Disk.{System}
use chaosblade_exec_os.Disk.Fill.{
  data_file, fill_disk_by_fallocate, fill_disk_by_dd, kill_named, stop_fill, fill_file, fill_sized,
}

-- A file is looked for, and the command is the next call.
looks :
    (env : Env) (p : String) (t : Trace)
    → AnswersTexts env
    → Returns (λ b t'. Unit {0}) (check_filepath_exists env p t)
unfolding check_filepath_exists
looks env p t texts = elim (Bool-cases (env.answer t (exists_cmd p) "").success) [
  | inr fails ↦ rw (fails, Returns) tt
  | inl good ↦
      let (text, e) = texts t (exists_cmd p) "" good in rw (good, Returns) (rw (e, Returns) tt)
]

module _ (env : Env) (system : System) (directory : String) where
  -- The data file was looked for last and is not there, or it was found and then removed by the
  -- last call.
  abbrev pub Cleaned : Trace → Type 0
  Cleaned t' =
      (older : Trace) × ((check_filepath_exists env (data_file directory) older ≡ returned false t')
        ⊎ ((found : Trace) × ((check_filepath_exists env (data_file directory) older
                ≡ returned true found)
              × (t' ≡ run "rm" ("-rf " +s data_file directory) ∷ found))))

  kill_named-Returns :
      (name : String) (t : Trace) → Returns (λ b t'. Unit {0}) (kill_named env system name t)
  unfolding kill_named
  kill_named-Returns name t = elim (Option-cases (system.pids_or_nil t name)) [
    | inl nothing ↦ rw (nothing, Returns) tt
    | inr (pids, found) ↦ rw (found, Returns) tt
  ]

  removed :
      (t : Trace)
      → AnswersTexts env
      → Returns
          (λ r t'. Cleaned t')
          ((check_filepath_exists env (data_file directory) >>= λ exists.
              elim exists as (λ x. M Response) [
                | true ↦ run_cmd env "rm" ("-rf " +s data_file directory)
                | false ↦ pure env.plain_success
              ])
            t)
  removed t texts =
      let (b, (t', (same, _))) =
        Returns-value (λ b t'. Unit {0}) (check_filepath_exists env (data_file directory) t)
          (looks env (data_file directory) t texts) in
      rw (same, Returns) (after b t' same)
    where
      after :
          (b : Bool) (t' : Trace)
          → check_filepath_exists env (data_file directory) t ≡ returned b t'
          → Returns
              (λ r t''. Cleaned t'')
              ((elim b as (λ x. M Response) [
                | true ↦ run_cmd env "rm" ("-rf " +s data_file directory)
                | false ↦ pure env.plain_success
              ])
                t')
      after true t' same = (t, inr (t', (same, refl)))
      after false t' same = (t, inl same)

  stop_fill-Cleaned :
      (t : Trace)
      → AnswersTexts env
      → str_eq directory "" ≡ false
      → Returns (λ r t'. Cleaned t') (stop_fill env system directory t)
  unfolding stop_fill
  stop_fill-Cleaned t texts named =
      rw (named, Returns)
        (Returns-bind (λ b t'. Unit {0}) (λ r t'. Cleaned t')
          (kill_named env system "chaos_filldisk.log.dat" t) _
          (kill_named-Returns "chaos_filldisk.log.dat" t)
          λ b t1 _.
            Returns-bind (λ b t'. Unit {0}) (λ r t'. Cleaned t')
              (kill_named env system "disk fill" t1) _ (kill_named-Returns "disk fill" t1)
              λ b' t2 _. removed t2 texts)

  fill_disk_by_dd-Returns :
      (size file : String) (t : Trace)
      → Returns (λ r t'. Unit {0}) (fill_disk_by_dd env system size file t)
  unfolding fill_disk_by_dd
  fill_disk_by_dd-Returns size file t = elim (Bool-cases (env.has_command t "dd")) [
    | inr missing ↦ rw (missing, Returns) tt
    | inl found ↦
        rw (found, Returns)
          (elim (Bool-cases
            (env.answer (command_available "dd" ∷ t) "dd"
              ("if=/dev/zero of=" +s file +s " bs=1b count=1 iflag=fullblock")).success) [
                | inr fails ↦ rw (fails, Returns) tt
                | inl good ↦ rw (good, Returns) tt
              ])
  ]

  fill_disk_by_fallocate-Returns :
      (size file : String) (t : Trace)
      → Returns (λ r t'. Unit {0}) (fill_disk_by_fallocate env system size file t)
  unfolding fill_disk_by_fallocate
  fill_disk_by_fallocate-Returns size file t = tt

  fill_file-Returns :
      (size file : String) (t : Trace)
      → Returns (λ r t'. Unit {0}) (fill_file env system size file t)
  unfolding fill_file
  fill_file-Returns size file t = elim (Bool-cases (env.has_command t "fallocate")) [
    | inr missing ↦
        rw (missing, Returns)
          (fill_disk_by_dd-Returns size file (command_available "fallocate" ∷ t))
    | inl found ↦
        rw (found, Returns)
          (Returns-bind (λ r t'. Unit {0}) (λ r t'. Unit {0})
            (fill_disk_by_fallocate env system size file (command_available "fallocate" ∷ t))
            (λ response. elim response.success as (λ x. M Response) [
              | true ↦ pure response
              | false ↦ fill_disk_by_dd env system size file
            ])
            (fill_disk_by_fallocate-Returns size file (command_available "fallocate" ∷ t))
            λ r t' _. elim (Bool-cases r.success) [
              | inl good ↦ rw (good, Returns) tt
              | inr fails ↦ rw (fails, Returns) (fill_disk_by_dd-Returns size file t')
            ])
  ]

  -- A fill that does not retain the handle returns, and if it fails, the data file was looked for
  -- after it, and removed by the last call if it was found.
  pub fill_sized-Cleaned :
      (size : String) (t : Trace)
      → AnswersTexts env
      → str_eq directory "" ≡ false
      → Returns
          (λ r t'. (r.success ≡ true) ⊎ Cleaned t')
          (fill_sized env system directory false size t)
  unfolding fill_sized
  fill_sized-Cleaned size t texts named =
      Returns-bind (λ r t'. Unit {0}) (λ r t'. (r.success ≡ true) ⊎ Cleaned t')
        (fill_file env system size (data_file directory) t) _
        (fill_file-Returns size (data_file directory) t)
        λ r t' _. elim (Bool-cases r.success) [
          | inl good ↦ rw (good, Returns) (inl good)
          | inr fails ↦
              rw (fails, Returns)
                (Returns-bind (λ r' t''. Cleaned t'') (λ r' t''. (r'.success ≡ true) ⊎ Cleaned t'')
                  (stop_fill env system directory t') _ (stop_fill-Cleaned t' texts named)
                  λ r' t'' clean. inr clean)
        ]
