-- ===== src/Memory.antt =====
-- exec/mem: mem.go, mem_linux.go and mem_cgroup_v2.go. Sizes are in bytes, or in MiB where they are
-- asked of `dd`.
pub mod Load
pub mod Reserve
pub mod Zero
use chaosblade_exec_os.Prelude.{
  ℕ, zero, suc, ◌+◌, ◌-◌, ◌*◌, ◌/◌, ◌%◌, ◌^◌, ◌≡◌, refl, String, List, [], ◌∷◌, Option, none, some,
  Bool, true, false, not, ◌&&◌, ◌||◌, ◌==◌, str_eq, leb, ltb, if◌then◌else◌,
}
use chaosblade_exec_os.Prelude.Result.{Result, ok, err, ◌>>=◌}
use chaosblade_exec_os.Go.Strings.{◌+s◌, split_text, fields, has_prefix, trim_space}
use chaosblade_exec_os.Go.Strconv.{ℤ, pos, negsuc, atoi, itoa, int_text}
use chaosblade_exec_os.Go.Int64.{int64, plus, minus, times, quotient, is_positive, less}

-- mem.VirtualMemory() of gopsutil, and the statistics of a cgroup of containerd.
pub record VirtualMemory : Type 0 where
  pub total : ℕ
  pub free : ℕ
  pub buffers : ℕ
  pub cached : ℕ

pub record CgroupMemory : Type 0 where
  pub limit : ℕ
  pub usage : ℕ
  pub cache : ℕ

-- What a calculation reads of the machine: the libraries gopsutil and containerd/cgroups, the
-- package automaxprocs, and files.
pub record Machine : Type 0 where
  pub virtual_memory : Result String VirtualMemory
  -- cgroups.Load and Stat; `none` is nil
  pub load_error : String → ℤ → Option String
  pub stat : String → ℤ → Result String (Option CgroupMemory)
  -- DetectCGroupVersion(…) == CGroupV2, FindCGroupV2Path, MemoryLimit
  pub is_cgroup_v2 : String → Bool
  pub find_cgroup_v2_path : String → String → Result String String
  pub memory_limit : String → Result String (ℤ × Bool)
  -- os.ReadFile
  pub read_file : String → Result String String
  -- the text of an error of strconv.Atoi
  pub atoi_error : String → String

-- What is asked of a calculation: the mode, --include-buffer-cache, the context's target process
-- and its cgroup root.
pub record Target : Type 0 where
  pub mode : String
  pub include_buffer_cache : Bool
  pub pid : Option String
  pub cgroup_root : String

-- The cache counts as available memory.
unfoldable pub counts_cache : Target → Bool
counts_cache target = str_eq target.mode "ram" && not target.include_buffer_cache

abbrev pub page_counter_max : ℕ
page_counter_max = 9223372036854770000

-- A total and what is available of it.
abbrev pub Sizes : Type 0
Sizes = ℤ × ℤ

unfoldable pub sizes_of : Target → VirtualMemory → Sizes
unfolding int64 plus counts_cache
sizes_of target memory = (
  int64 memory.total,
  if counts_cache target
      then plus (int64 memory.free) (int64 ((memory.buffers + memory.cached) % 2 ^ 64))
      else int64 memory.free,
)

unfoldable pub system_memory : Machine → Target → Result String Sizes
unfolding sizes_of
system_memory machine target = machine.virtual_memory >>= λ memory. ok (sizes_of target memory)

-- The total and the available memory of a limited cgroup.
unfoldable pub sizes_of_cgroup : Target → CgroupMemory → Sizes
unfolding int64 plus minus counts_cache
sizes_of_cgroup target memory =
    let available = minus (int64 memory.limit) (int64 memory.usage) in
    (
      int64 memory.limit,
      if counts_cache target then plus available (int64 memory.cache) else available,
    )

unfoldable pub available_and_total_v1 : Machine → Target → ℤ → String → Result String Sizes
unfolding system_memory sizes_of_cgroup
available_and_total_v1 machine target pid cgroup_root =
    elim (machine.load_error cgroup_root pid) as (λ x. Result String Sizes) [
      | some e ↦ err ("load cgroup error, " +s e)
      | none ↦ elim (machine.stat cgroup_root pid) as (λ x. Result String Sizes) [
        | err e ↦ err ("load cgroup stat error, " +s e)
        | ok none ↦ system_memory machine target
        | ok (some memory) ↦
            if ltb memory.limit page_counter_max
            then ok (sizes_of_cgroup target memory)
            else system_memory machine target
      ]
    ]

-- The number in memory.current, `none` on an error.
unfoldable pub cgroup_v2_memory_usage : Machine → String → Option ℤ
unfolding atoi trim_space
cgroup_v2_memory_usage machine path = elim (machine.read_file (path +s "/memory.current")) [
  | err e ↦ none
  | ok content ↦ atoi (trim_space content)
]

-- The value of a line of memory.stat that is counted.
unfoldable pub file_value : String → ℤ
unfolding has_prefix fields atoi
file_value line =
    if has_prefix line "file "
    then (elim (fields line) as (λ x. ℤ) [
      | [] ↦ pos 0
      | name ∷ [] ↦ pos 0
      | name ∷ value ∷ [] ↦ elim (atoi value) [ none ↦ pos 0 | some n ↦ n ]
      | name ∷ value ∷ more ∷ rest ↦ pos 0
    ])
    else pos 0

unfoldable pub add_file_lines : List String → ℤ → ℤ
unfolding plus file_value
add_file_lines [] cache = cache
add_file_lines (line ∷ rest) cache = add_file_lines rest (plus cache (file_value line))

-- `none` on an error.
unfoldable pub cgroup_v2_memory_cache : Machine → String → Option ℤ
unfolding add_file_lines split_text
cgroup_v2_memory_cache machine path = elim (machine.read_file (path +s "/memory.stat")) [
  | err e ↦ none
  | ok content ↦ some (add_file_lines (split_text "\n" content) (pos 0))
]

-- The sizes of a cgroup with a limit.
unfoldable pub sizes_of_v2 : Machine → Target → String → ℤ → ℤ → Sizes
unfolding plus minus counts_cache cgroup_v2_memory_cache
sizes_of_v2 machine target path limit usage =
    let available = minus limit usage in
    (
      limit,
      if counts_cache target
          then (elim (cgroup_v2_memory_cache machine path) as (λ x. ℤ) [
            | none ↦ available
            | some cache ↦ plus available cache
          ])
          else available,
    )

-- From the path of the cgroup on; what fails falls back to the memory of the system.
unfoldable pub limited_memory : Machine → Target → String → Result String Sizes
unfolding system_memory cgroup_v2_memory_usage sizes_of_v2
limited_memory machine target path =
    elim (machine.memory_limit path) as (λ x. Result String Sizes) [
      | err e ↦ system_memory machine target
      | ok (pos zero, defined) ↦ system_memory machine target
      | ok (limit, false) ↦ system_memory machine target
      | ok (limit, true) ↦
          elim (cgroup_v2_memory_usage machine path) as (λ x. Result String Sizes) [
            | none ↦ system_memory machine target
            | some usage ↦ ok (sizes_of_v2 machine target path limit usage)
          ]
    ]

unfoldable pub or_default : String → String → String
or_default given default = if str_eq given "" then default else given

-- getAvailableAndTotalV2
unfoldable pub available_and_total_v2 : Machine → Target → Result String Sizes
unfolding system_memory limited_memory or_default atoi int_text
available_and_total_v2 machine target = elim target.pid as (λ x. Result String Sizes) [
  | none ↦ system_memory machine target
  | some pid ↦ elim (atoi pid) as (λ x. Result String Sizes) [
    | none ↦ err ("load cgroup error, " +s machine.atoi_error pid)
    | some p ↦
        elim (machine.find_cgroup_v2_path (int_text p)
            (or_default target.cgroup_root "/sys/fs/cgroup"))
          as (λ x. Result String Sizes) [
            | err e ↦ system_memory machine target
            | ok path ↦
                if str_eq path ""
                then system_memory machine target
                else limited_memory machine target path
          ]
  ]
]

-- getAvailableAndTotal
unfoldable pub available_and_total : Machine → Target → Result String Sizes
unfolding system_memory available_and_total_v1 available_and_total_v2 or_default atoi
available_and_total machine target = elim target.pid as (λ x. Result String Sizes) [
  | none ↦ system_memory machine target
  | some pid ↦ elim (atoi pid) as (λ x. Result String Sizes) [
    | none ↦ err ("load cgroup error, " +s machine.atoi_error pid)
    | some p ↦
        let cgroup_root = or_default target.cgroup_root "/sys/fs/cgroup/" in
        if machine.is_cgroup_v2 cgroup_root
        then available_and_total_v2 machine target
        else available_and_total_v1 machine target p cgroup_root
  ]
]

file_cache : add_file_lines (split_text "\n" "anon 5\nfile 7\nfile_mapped 3\n") (pos 0) ≡ pos 7
unfolding add_file_lines split_text
file_cache = refl
