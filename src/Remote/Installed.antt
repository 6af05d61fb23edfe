-- ===== src/Remote/Installed.antt =====
-- When exec/executor_ssh.go runs an experiment on the other host.
use chaosblade_exec_os.Prelude.{◌≡◌, String, ◌∷◌, Option, none, some, false, ◌⊎◌}
use chaosblade_exec_os.Go.Path.{join_path}
use chaosblade_exec_os.Channel.{Env, Response, Flags, ssh_connect, ssh_run, Trace}
use chaosblade_exec_os.Remote.{
  Client, Host, mkdir_command, install_command, create_command, release_url,
}

module _ (env : Env) (host : Host) (client : Client) where
  -- A command that failed, and one that did not, on a connection of its own.
  abbrev pub RunsWell : String → Trace → Trace → Type 0
  RunsWell command t t' =
      (host.connect_error t client ≡ none)
      × (((host.combined_output (ssh_connect ∷ t) client command).1 ≡ none)
          × (t' ≡ ssh_run command ∷ ssh_connect ∷ t))

  abbrev Answered : String → Trace → Option Response → Trace → Type 0
  Answered command t none t' = RunsWell command t t'
  Answered command t (some r) t' = r.success ≡ false

  -- The trace after a command.
  abbrev pub after_run : String → Trace → Trace
  after_run command t = ssh_run command ∷ ssh_connect ∷ t

  module _ (flags : Flags) (uid target action path : String) where
    abbrev making : String
    making = mkdir_command env host path

    abbrev installing : String
    installing = install_command env host (join_path path "blade") (release_url env host flags) path

    abbrev creating : String
    creating =
        create_command env host (join_path path "blade") target action (host.matchers flags) uid

    -- A failure, or: the directory was made and the release installed, each with success, and only
    -- then, last, the experiment was run on a connection of its own, or the connection or its
    -- session was refused.
    abbrev pub Installed : Trace → Response → Trace → Type 0
    Installed t r t' =
        (r.success ≡ false)
        ⊎ (RunsWell making t (after_run making t)
            × (RunsWell installing (after_run making t) (after_run installing (after_run making t))
                × ((t' ≡ after_run creating (after_run installing (after_run making t)))
                    ⊎ (t' ≡ ssh_connect ∷ after_run installing (after_run making t)))))
