-- ===== src/File/Append/Lines.antt =====
-- The loop of `appendFile` in exec/file/file_append.go: what each round appends.
use chaosblade_exec_os.Prelude.{ℕ, zero, suc, ◌≡◌, refl, String, [], ◌∷◌, Option, some}
use chaosblade_exec_os.Prelude.Result.{ok}
use chaosblade_exec_os.Channel.{Env, Response, run, Trace}
use chaosblade_exec_os.Channel.Laws.{Returns}
use chaosblade_exec_os.File.Template.{randoms, put_randoms, parse_random}
use chaosblade_exec_os.File.{Codec}
use chaosblade_exec_os.File.Append.{Chance, AppendArgs, echo_args, append_lines}

parse_random-fixed :
    (draw : ℕ → ℕ → ℕ) (content : String)
    → randoms content ≡ []
    → parse_random draw content ≡ ok content
unfolding parse_random put_randoms
parse_random-fixed draw content fixed = rw fixed refl

module _ (env : Env) (codec : Codec) (chance : Chance) (a : AppendArgs) where
  -- The calls of a number of rounds that append the same line.
  abbrev pub same_lines : ℕ → String → Trace → Trace
  same_lines zero line t = t
  same_lines (suc count) line t =
      same_lines count line (run "echo" (echo_args env codec chance a line) ∷ t)

  fixed_lines :
      (count : ℕ) (line : String) (response : Option Response) (t : Trace)
      → randoms line ≡ []
      → Returns
          (λ r t'. t' ≡ same_lines count line t)
          (append_lines env codec chance a count line response t)
  unfolding append_lines
  fixed_lines zero line response t fixed = refl
  fixed_lines (suc count) line response t fixed =
      rw (parse_random-fixed (chance.draw t) line fixed, Returns)
        (fixed_lines count line (some (env.answer t "echo" (echo_args env codec chance a line)))
          (run "echo" (echo_args env codec chance a line) ∷ t) fixed)

  -- Where the first round leaves no placeholder in the content, each round appends the line of the
  -- first: numbers are drawn once, and no command but these is run.
  pub append_lines-drawn_once :
      (count : ℕ) (content line : String) (response : Option Response) (t : Trace)
      → parse_random (chance.draw t) content ≡ ok line
      → randoms line ≡ []
      → Returns
          (λ r t'. t' ≡ same_lines (suc count) line t)
          (append_lines env codec chance a (suc count) content response t)
  unfolding append_lines
  append_lines-drawn_once count content line response t first fixed =
      rw (first, Returns)
        (fixed_lines count line (some (env.answer t "echo" (echo_args env codec chance a line)))
          (run "echo" (echo_args env codec chance a line) ∷ t) fixed)
