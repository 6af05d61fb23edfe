-- ===== src/Disk/Burn/Confined.antt =====
-- What the goroutines of exec/disk/disk_burn.go write, in each of their interleavings.
use chaosblade_exec_os.Prelude.{
  ◌≡◌, refl, String, List, [], ◌∷◌, Bool, true, false, ◌⊎◌, inl, inr, if◌then◌else◌, Bool-cases,
  Option-cases,
}
use chaosblade_exec_os.Go.Strings.{◌+s◌}
use chaosblade_exec_os.Go.Path.{join_path}
use chaosblade_exec_os.Channel.{Env, Call, local_run, Trace, pure}
use chaosblade_exec_os.Channel.Laws.{Returns, Returns-bind, Returns-weaken}
use chaosblade_exec_os.Disk.Burn.{
  DdOptions, default_options, alpine_options, Burner, asking, creating, running, ended, read_file,
  write_file, write_args, read_args, contains_upper, get_args, burn_once, burn_write, burn_read,
  burn_steps,
}

-- The calls that a trace has on top of another, each with a property.
pub data Extended (P : Call → Type 0) (t : Trace) : Trace → Type 0 where
  nothing_more : Extended P t t
  one_more : (c : Call) (t' : Trace) → P c → Extended P t t' → Extended P t (c ∷ t')

Extended-trans :
    (P : Call → Type 0) (t t' t'' : Trace) → Extended P t t' → Extended P t' t'' → Extended P t t''
Extended-trans P t t' _ first nothing_more = first
Extended-trans P t t' _ first (one_more c u p rest) =
    one_more c u p (Extended-trans P t t' u first rest)

-- The options behind a `dd` that writes a file, and behind one that reads it.
abbrev pub WriteOptions : String → Type 0
WriteOptions options = (options ≡ "oflag=dsync") ⊎ (options ≡ "oflag=append")

abbrev pub ReadOptions : String → Type 0
ReadOptions options =
    (options ≡ "iflag=dsync,direct,fullblock") ⊎ (options ≡ "iflag=fullblock oflag=append")

-- The options that a goroutine holds.
abbrev Reads : Burner → Type 0
Reads (creating options) = WriteOptions options.create × ReadOptions options.read
Reads (running options) = ReadOptions options
Reads _ = Unit

abbrev Writes : Burner → Type 0
Writes (creating options) = WriteOptions options.write
Writes (running options) = WriteOptions options
Writes _ = Unit

abbrev Known : DdOptions → Type 0
Known o = WriteOptions o.create × ReadOptions o.read × WriteOptions o.write

default-Known : Known default_options
default-Known = (inl refl, inl refl, inl refl)

alpine-Known : Known alpine_options
alpine-Known = (inr refl, inr refl, inr refl)

get_args-Known :
    (env : Env) (t : Trace)
    → Returns (λ o t'. Known o × (t' ≡ local_run "cat" "/etc/os-release" ∷ t)) (get_args env t)
unfolding get_args
get_args-Known env t = elim (Bool-cases (env.local_answer t "cat" "/etc/os-release").success) [
  | inr fails ↦ rw (fails, Returns) (default-Known, refl)
  | inl good ↦ elim (Option-cases (env.local_answer t "cat" "/etc/os-release").result) [
    | inl no_text ↦ rw (good, no_text, Returns) (default-Known, refl)
    | inr (text, is) ↦ elim (Bool-cases (contains_upper text "ID=ALPINE")) [
      | inl alpine ↦ rw (good, is, Returns) (rw alpine (alpine-Known, refl))
      | inr other ↦ rw (good, is, Returns) (rw other (default-Known, refl))
    ]
  ]
]

module _ (env : Env) (directory size : String) (read write : Bool) where
  -- The calls: of both goroutines the look at the system, of `burnRead` the writing of its own file
  -- and the reading of it to /dev/null, of `burnWrite` the writing of its own file. The options name
  -- no other file, since they are among those written here.
  abbrev pub Confined : Call → Type 0
  Confined c =
      (c ≡ local_run "cat" "/etc/os-release")
      ⊎ (((read ≡ true)
            × ((options : String) × (((c
                      ≡ local_run "dd" (
                          "if=/dev/zero of="
                          +s join_path directory "chaos_burnio.read"
                          +s " bs="
                          +s "6"
                          +s "M count=100 "
                          +s options))
                    × WriteOptions options)
                  ⊎ ((c
                        ≡ local_run "dd" (
                            "if="
                            +s join_path directory "chaos_burnio.read"
                            +s " of=/dev/null bs="
                            +s size
                            +s "M count=100 "
                            +s options))
                      × ReadOptions options))))
          ⊎ ((write ≡ true)
              × ((options : String) × ((c
                      ≡ local_run "dd" (
                          "if=/dev/zero of="
                          +s join_path directory "chaos_burnio.write"
                          +s " bs="
                          +s size
                          +s "M count=100 "
                          +s options))
                    × WriteOptions options))))

  -- A goroutine that was not started is over.
  abbrev Off : Bool → Burner → Type 0
  Off on burner = (on ≡ true) ⊎ (burner ≡ ended)

  abbrev Stepped : (Burner → Type 0) → Bool → Trace → Burner → Trace → Type 0
  Stepped Holds on t burner t' = Off on burner × Holds burner × Extended Confined t t'

  burn_read-Stepped :
      (reader : Burner) (t : Trace)
      → Off read reader
      → Reads reader
      → Returns (Stepped Reads read t) (burn_read env directory size reader t)
  unfolding burn_read burn_once
  burn_read-Stepped ended t off known = (inr refl, tt, nothing_more)
  burn_read-Stepped asking t (inl on) known =
      Returns-bind (λ o t'. Known o × (t' ≡ local_run "cat" "/etc/os-release" ∷ t))
        (Stepped Reads read t) (get_args env t) (λ o. pure (creating o)) (get_args-Known env t)
        λ o t' ((create, reads, writes), one).
          (inl on, (create, reads), rw one (one_more _ t (inl refl) nothing_more))
  burn_read-Stepped (creating options) t (inl on) (create, reads) = (
    inl on,
    reads,
    one_more _ t (inr (inl (on, (options.create, inl (refl, create))))) nothing_more,
  )
  burn_read-Stepped (running options) t (inl on) known =
      elim (Bool-cases
        (env.local_answer t "dd" (read_args (read_file directory) size options)).success) [
          | inl good ↦ rw (good, Returns) (inl on, known, read_more t options on known)
          | inr fails ↦ rw (fails, Returns) (inl on, tt, read_more t options on known)
        ]
    where
      read_more :
          (t : Trace) (options : String)
          → read ≡ true
          → ReadOptions options
          → Extended Confined t (local_run "dd" (read_args (read_file directory) size options) ∷ t)
      read_more t options on known =
          one_more _ t (inr (inl (on, (options, inr (refl, known))))) nothing_more
  burn_read-Stepped _ t (inr over) known = cc

  burn_write-Stepped :
      (writer : Burner) (t : Trace)
      → Off write writer
      → Writes writer
      → Returns (Stepped Writes write t) (burn_write env directory size writer t)
  unfolding burn_write burn_once
  burn_write-Stepped ended t off known = (inr refl, tt, nothing_more)
  burn_write-Stepped asking t (inl on) known =
      Returns-bind (λ o t'. Known o × (t' ≡ local_run "cat" "/etc/os-release" ∷ t))
        (Stepped Writes write t) (get_args env t) (λ o. pure (running o.write))
        (get_args-Known env t)
        λ o t' ((create, reads, writes), one).
          (inl on, writes, rw one (one_more _ t (inl refl) nothing_more))
  burn_write-Stepped (creating options) t (inl on) known = (inl on, known, nothing_more)
  burn_write-Stepped (running options) t (inl on) known =
      elim (Bool-cases
        (env.local_answer t "dd" (write_args (write_file directory) size options)).success) [
          | inl good ↦ rw (good, Returns) (inl on, known, write_more t options on known)
          | inr fails ↦ rw (fails, Returns) (inl on, tt, write_more t options on known)
        ]
    where
      write_more :
          (t : Trace) (options : String)
          → write ≡ true
          → WriteOptions options
          → Extended Confined t
              (local_run "dd" (write_args (write_file directory) size options) ∷ t)
      write_more t options on known =
          one_more _ t (inr (inr (on, (options, (refl, known))))) nothing_more
  burn_write-Stepped _ t (inr over) known = cc

  steps-Confined :
      (schedule : List Bool) (reader writer : Burner) (t : Trace)
      → Off read reader
      → Off write writer
      → Reads reader
      → Writes writer
      → Returns
          (λ burners t'. Extended Confined t t')
          (burn_steps env directory size schedule reader writer t)
  unfolding burn_steps
  steps-Confined [] reader writer t r w reads writes = nothing_more
  steps-Confined (true ∷ schedule) reader writer t r w reads writes =
      Returns-bind (Stepped Reads read t) (λ burners t'. Extended Confined t t')
        (burn_read env directory size reader t) _ (burn_read-Stepped reader t r reads)
        λ reader' t' (r', reads', made).
          Returns-weaken (λ burners t''. Extended Confined t' t'')
            (λ burners t''. Extended Confined t t'')
            (burn_steps env directory size schedule reader' writer t')
            (steps-Confined schedule reader' writer t' r' w reads' writes)
            λ burners t'' later. Extended-trans Confined t t' t'' made later
  steps-Confined (false ∷ schedule) reader writer t r w reads writes =
      Returns-bind (Stepped Writes write t) (λ burners t'. Extended Confined t t')
        (burn_write env directory size writer t) _ (burn_write-Stepped writer t w writes)
        λ writer' t' (w', writes', made).
          Returns-weaken (λ burners t''. Extended Confined t' t'')
            (λ burners t''. Extended Confined t t'')
            (burn_steps env directory size schedule reader writer' t')
            (steps-Confined schedule reader writer' t' r w' reads writes')
            λ burners t'' later. Extended-trans Confined t t' t'' made later

  started-Off : (on : Bool) → Off on (if on then asking else ended)
  started-Off true = inl refl
  started-Off false = inr refl

  started-Reads : (on : Bool) → Reads (if on then asking else ended)
  started-Reads true = tt
  started-Reads false = tt

  started-Writes : (on : Bool) → Writes (if on then asking else ended)
  started-Writes true = tt
  started-Writes false = tt

  -- In each interleaving of the two goroutines, as far as it goes, every call is one of a goroutine
  -- that was started: it looks at the system, or is a `dd` that writes to /dev/null or to the
  -- goroutine's own file, with options that name no file.
  pub burn_steps-Confined :
      (schedule : List Bool) (t : Trace)
      → Returns
          (λ burners t'. Extended Confined t t')
          (burn_steps env directory size schedule
            (if read then asking else ended)
            (if write then asking else ended)
            t)
  burn_steps-Confined schedule t =
      steps-Confined schedule (if read then asking else ended) (if write then asking else ended) t
        (started-Off read) (started-Off write) (started-Reads read) (started-Writes write)
