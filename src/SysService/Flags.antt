-- ===== src/SysService/Flags.antt =====
-- What the command line of the service makes of its flags.
use sem.Common.{
  ℕ, zero, suc, ◌≡◌, ◌≢◌, refl, sym, append-nil, ap, ◌∙◌, false, List, [], ◌∷◌, ◌++◌, replicate,
  ◌==◌, if◌then◌else◌, ok, exit, arith,
}
use sem.SysService.Config.{Config, parse_flags, parse_console_args}

-- The daemon mode, once it is on, stays on.
parse_flags-daemon :
    (n : ℕ) (rest : List ℕ) (pid : ℕ)
    → parse_flags (replicate n b'd' ++ rest) (record { options = 1; pid = pid })
      ≡ parse_flags rest (record { options = 1; pid = pid })
unfolding parse_flags
parse_flags-daemon zero rest pid = refl
parse_flags-daemon (suc n) rest pid = parse_flags-daemon n rest pid

-- The options behind `n` flags `-d`.
abbrev pub options_of : ℕ → ℕ
options_of zero = 0
options_of (suc n) = 1

parse_flags-leading :
    (n : ℕ) (rest : List ℕ) (pid : ℕ)
    → parse_flags (replicate n b'd' ++ rest) (record { options = 0; pid = pid })
      ≡ parse_flags rest (record { options = options_of n; pid = pid })
unfolding parse_flags
parse_flags-leading zero rest pid = refl
parse_flags-leading (suc n) rest pid = parse_flags-daemon n rest pid

-- The exit code of a flag that is not `-d`.
abbrev pub code_of : ℕ → ℕ
code_of flag = if flag == b'h' then 0 else 1

parse_flags-other :
    (flag : ℕ) (rest : List ℕ) (conf : Config)
    → flag ≢ b'd'
    → parse_flags (flag ∷ rest) conf ≡ exit (code_of flag)
unfolding parse_flags
parse_flags-other flag rest conf h = ground arith

-- Where there are arguments, `parse_console_args` gives the daemon mode exactly if there is a `-d` and
-- no other flag; the first other flag ends the process, with 0 for `-h` and 1 for any other, whatever
-- comes behind it.
pub parse_console_args_lem :
    (argc n : ℕ) (flag : ℕ) (rest : List ℕ) (pid : ℕ)
    → argc ≢ 1
    → flag ≢ b'd'
    → (parse_console_args argc (replicate n b'd') pid
        ≡ ok (record { options = options_of n; pid = pid }))
      × (parse_console_args argc (replicate n b'd' ++ flag ∷ rest) pid ≡ exit (code_of flag))
unfolding parse_console_args parse_flags
parse_console_args_lem argc n flag rest pid h k =
    let e : (argc == 1) ≡ false = ground arith in
    (
      rw e (
          ap (λ (l : List ℕ). parse_flags l (record { options = 0; pid = pid }))
            (sym (append-nil (replicate n b'd')))
          ∙ parse_flags-leading n [] pid
          ∙ no_flags (record { options = options_of n; pid = pid })),
      rw e (
          parse_flags-leading n (flag ∷ rest) pid
          ∙ parse_flags-other flag rest (record { options = options_of n; pid = pid }) k),
    )
  where
    no_flags : (conf : Config) → parse_flags [] conf ≡ ok conf
    no_flags conf = refl
