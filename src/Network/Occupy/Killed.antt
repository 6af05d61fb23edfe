-- ===== src/Network/Occupy/Killed.antt =====
-- What exec/network/network_occupy.go kills.
use chaosblade_exec_os.Prelude.{
  ◌≡◌, refl, ◌∙◌, ap, String, ◌∷◌, Bool, not, ◌&&◌, Option, none, some, true, false, ◌⊎◌, inl, inr,
  Bool-cases, Option-cases, str_eq,
}
use chaosblade_exec_os.Go.Strings.{◌+s◌, trim_space}
use chaosblade_exec_os.Channel.{
  Env, Response, Context, Flags, flag, flag_is_true, run, Trace, M, pure, ◌>>=◌, run_cmd, text_of,
  returned, panicked,
}
use chaosblade_exec_os.Channel.Laws.{trace_of}
use chaosblade_exec_os.Network.Occupy.Named.{Names, pid_of-Names, Names-pid_of}
use chaosblade_exec_os.Network.Occupy.{
  Listen, pid_of, netstat_args, occupy_start, free_and_start, occupy_exec,
}

module _ (env : Env) (listen : Listen) where
  -- The answer of netstat after some calls names a process.
  abbrev pub NamedBy : String → Trace → String → Type 0
  NamedBy port t pid =
      ((env.answer t "netstat" (netstat_args port)).success ≡ true)
      × ((text : String) × (((env.answer t "netstat" (netstat_args port)).result ≡ some text)
            × Names (trim_space text) pid))

  -- No command was run, which is so if the user is not root, no port is given or it is not forced;
  -- or netstat for the port, and then nothing more if its answer names no process, or the kill of
  -- the process that it names.
  abbrev pub KilledNamed : String → Bool → Trace → Trace → Type 0
  KilledNamed port force t t' =
      ((t' ≡ t) × ((env.is_effective_root && not (str_eq port "") && force) ≡ false))
      ⊎ (((env.is_effective_root && not (str_eq port "") && force) ≡ true)
          × (((t' ≡ run "netstat" (netstat_args port) ∷ t)
                × ((pid : String) → ¬ NamedBy port t pid))
              ⊎ ((pid : String) × (NamedBy port t pid
                    × (t' ≡ run "kill" ("-9 " +s pid) ∷ run "netstat" (netstat_args port) ∷ t)))))

  start-same : (port : String) (t : Trace) → trace_of (occupy_start env listen port t) ≡ t
  unfolding occupy_start
  start-same port t = elim (Option-cases (listen t (":" +s port))) [
    | inl serves ↦ rw (serves, trace_of) refl
    | inr (e, fails) ↦ rw (fails, trace_of) refl
  ]

  -- The process that was named is killed, and nothing else is run.
  named-killed :
      (port : String) (named : Option String) (t : Trace)
      → (trace_of (
              (elim named as (λ x. M Response) [
                | none ↦ occupy_start env listen port
                | some pid ↦ run_cmd env "kill" ("-9 " +s pid) >>= λ killed.
                    elim killed.success as (λ x. M Response) [
                      | false ↦ pure killed
                      | true ↦ occupy_start env listen port
                    ]
              ])
                t)
            ≡ t
          × named ≡ none)
        ⊎ ((pid : String) × ((named ≡ some pid)
              × (trace_of (
                    (elim named as (λ x. M Response) [
                      | none ↦ occupy_start env listen port
                      | some pid ↦ run_cmd env "kill" ("-9 " +s pid) >>= λ killed.
                          elim killed.success as (λ x. M Response) [
                            | false ↦ pure killed
                            | true ↦ occupy_start env listen port
                          ]
                    ])
                      t)
                  ≡ run "kill" ("-9 " +s pid) ∷ t)))
  named-killed port none t = inl (start-same port t, refl)
  named-killed port (some pid) t = elim (Bool-cases (env.answer t "kill" ("-9 " +s pid)).success) [
    | inr fails ↦ inr (pid, (refl, rw (fails, trace_of) refl))
    | inl good ↦
        inr (pid, (refl, rw (good, trace_of) (start-same port (run "kill" ("-9 " +s pid) ∷ t))))
  ]

  text_of-some :
      (r : Response) (text : String) (t : Trace)
      → r.result ≡ some text
      → text_of r t ≡ returned text t
  text_of-some r text t is = rw is refl

  text_of-none : (r : Response) (t : Trace) → r.result ≡ none → text_of r t ≡ panicked t
  text_of-none r t is = rw is refl

  not_named :
      (port : String) (t : Trace)
      → (env.answer t "netstat" (netstat_args port)).success ≡ false
      → (pid : String) → ¬ NamedBy port t pid
  not_named port t fails pid (good, _) = cc

  no_text_named :
      (port : String) (t : Trace)
      → (env.answer t "netstat" (netstat_args port)).result ≡ none
      → (pid : String) → ¬ NamedBy port t pid
  no_text_named port t no_text pid (_, (text, (is, _))) = cc

  none_named :
      (port text : String) (t : Trace)
      → (env.answer t "netstat" (netstat_args port)).result ≡ some text
      → pid_of (trim_space text) ≡ none
      → (pid : String) → ¬ NamedBy port t pid
  none_named port text t is unnamed pid (_, (text', (is', names))) =
      let named = Names-pid_of (trim_space text') pid names in
      let same : text ≡ text' = cc in
      let named' : pid_of (trim_space text) ≡ some pid =
        ap (λ x. pid_of (trim_space x)) same ∙ named in
      cc

  abbrev Freed : String → Trace → Trace → Type 0
  Freed port t t' =
      ((t' ≡ run "netstat" (netstat_args port) ∷ t) × ((pid : String) → ¬ NamedBy port t pid))
      ⊎ ((pid : String) × (NamedBy port t pid
            × (t' ≡ run "kill" ("-9 " +s pid) ∷ run "netstat" (netstat_args port) ∷ t)))

  free-Freed :
      (port : String) (t : Trace) → Freed port t (trace_of (free_and_start env listen port t))
  unfolding free_and_start
  free-Freed port t = elim (Bool-cases (env.answer t "netstat" (netstat_args port)).success) [
    | inr fails ↦ inl (rw (fails, trace_of) refl, not_named port t fails)
    | inl good ↦ elim (Option-cases (env.answer t "netstat" (netstat_args port)).result) [
      | inl no_text ↦ inl (
        rw
            (
              good,
              text_of-none (env.answer t "netstat" (netstat_args port))
                  (run "netstat" (netstat_args port) ∷ t) no_text,
              trace_of,
            )
            refl,
        no_text_named port t no_text,
      )
      | inr (text, is) ↦
          elim (named-killed port (pid_of (trim_space text))
            (run "netstat" (netstat_args port) ∷ t)) [
              | inl (started, unnamed) ↦ inl (
                rw
                    (
                      good,
                      text_of-some (env.answer t "netstat" (netstat_args port)) text
                          (run "netstat" (netstat_args port) ∷ t) is,
                    )
                    started,
                none_named port text t is unnamed,
              )
              | inr (pid, (named, killed)) ↦ inr (
                pid,
                (
                  (good, (text, (is, pid_of-Names (trim_space text) pid named))),
                  rw
                      (
                        good,
                        text_of-some (env.answer t "netstat" (netstat_args port)) text
                            (run "netstat" (netstat_args port) ∷ t) is,
                      )
                      killed,
                ),
              )
            ]
    ]
  ]

  -- However an occupation that is not destroyed ends, also if it serves for ever: without root,
  -- without a port or without --force it has run no command. Else it has run netstat for the port,
  -- and then nothing more if its answer names no process, or the kill of the process that the answer
  -- names: what stands, not empty, in front of its first slash.
  pub occupy_exec-KilledNamed :
      (ctx : Context) (flags : Flags) (t : Trace)
      → ctx.destroy ≡ false
      → KilledNamed
          (flag flags "port")
          (flag_is_true flags "force")
          t
          (trace_of (occupy_exec env listen ctx flags t))
  unfolding occupy_exec
  occupy_exec-KilledNamed ctx flags t created = elim (Bool-cases env.is_effective_root) [
    | inr user ↦ inl (simp (user, trace_of) refl, simp (user) refl)
    | inl root ↦ elim (Bool-cases (str_eq (flag flags "port") "")) [
      | inl no_port ↦ inl (simp (root, no_port, trace_of) refl, simp (root, no_port) refl)
      | inr port ↦ elim (Bool-cases (flag_is_true flags "force")) [
        | inl force ↦ inr (
          simp (root, port, force) refl,
          simp (root, port, created, force) (free-Freed (flag flags "port") t),
        )
        | inr gentle ↦ inl (
          simp (root, port, created, gentle) (start-same (flag flags "port") t),
          simp (root, port, gentle) refl,
        )
      ]
    ]
  ]
