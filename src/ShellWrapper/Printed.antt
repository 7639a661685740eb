-- ===== src/ShellWrapper/Printed.antt =====
-- How `scan_cmds` reads back a line on which commands are written out.
use sem.Common.{
  cstr_text, ℕ, suc, ◌≡◌, ◌≢◌, refl, sym, ap, ◌∙◌, false, some, List, [], ◌∷◌, ◌++◌, append_assoc,
  append-nil, tokens_from, Bytes, codes, cstr, IsText, is_in, tokens, IsWord, tokens_word,
  tokens_last, tokens_skip, map, length, All, All-append, ok, arith,
}
use sem.ShellWrapper.Heap.{scan_cmds-ok, given_back}
use sem.ShellWrapper.Parse.{Command, CommandLine, scan_cmd_line, scan_cmd, scan_cmds, free_cmds_mem}

-- A command written out: a space in front of each word and one at the end.
abbrev pub print_command : List Bytes → Bytes
print_command [] = b' ' ∷ []
print_command (w ∷ ws) = b' ' ∷ (w ++ print_command ws)

-- A line written out, from its first command on.
abbrev pub print_line : List Bytes → List (List Bytes) → Bytes
print_line c [] = print_command c ++ b'\n' ∷ []
print_line c (d ∷ cs) = print_command c ++ b'|' ∷ print_line d cs

-- The texts between the bars.
abbrev texts : List Bytes → List (List Bytes) → List Bytes
texts c [] = (print_command c ++ b'\n' ∷ []) ∷ []
texts c (d ∷ cs) = print_command c ∷ texts d cs

-- A word that a line can hold.
abbrev pub IsArgument : Bytes → Type 0
IsArgument w = IsWord (codes " \n") w × IsText w × All (λ c. is_in (codes "|") c ≡ false) w

abbrev pub command_of : List Bytes → Command
command_of c = record { argv = c; argc = length c }

starts : (ws : List Bytes) → (r : Bytes) × (print_command ws ≡ b' ' ∷ r)
starts [] = ([], refl)
starts (w ∷ ws) = (w ++ print_command ws, refl)

words-back :
    (ws : List Bytes) (tail : Bytes)
    → All IsArgument ws
    → tokens (codes " \n") tail ≡ []
    → tokens (codes " \n") (print_command ws ++ tail) ≡ ws
words-back [] tail h e = tokens_skip (codes " \n") tail b' ' refl ∙ e
words-back (w ∷ ws) tail ((word, _, _), h) e =
    let (r, s) = starts ws in
    let more : tokens (codes " \n") (r ++ tail) ≡ ws =
      sym (tokens_skip (codes " \n") (r ++ tail) b' ' refl)
      ∙ ap (λ (x : Bytes). tokens (codes " \n") (x ++ tail)) (sym s)
      ∙ words-back ws tail h e in
    tokens_skip (codes " \n") ((w ++ print_command ws) ++ tail) b' ' refl
    ∙ ap (λ (x : Bytes). tokens (codes " \n") ((w ++ x) ++ tail)) s
    ∙ ap (tokens (codes " \n")) (append_assoc w (b' ' ∷ r) tail)
    ∙ tokens_word (codes " \n") w (r ++ tail) b' ' word refl
    ∙ ap (λ (x : List Bytes). w ∷ x) more

command-clean :
    (ws : List Bytes)
    → All IsArgument ws
    → All (λ c. is_in (codes "|") c ≡ false) (print_command ws)
command-clean [] h = (refl, tt)
command-clean (w ∷ ws) ((_, _, clean), h) = (
  refl,
  All-append (λ c. is_in (codes "|") c ≡ false) w (print_command ws) clean (command-clean ws h),
)

command-IsText : (ws : List Bytes) → All IsArgument ws → IsText (print_command ws)
command-IsText [] h = (omega arith, tt)
command-IsText (w ∷ ws) ((_, text, _), h) =
    (omega arith, All-append (λ c. c ≢ 0) w (print_command ws) text (command-IsText ws h))

line-IsText :
    (c : List Bytes) (cs : List (List Bytes))
    → All IsArgument c
    → All (All IsArgument) cs
    → IsText (print_line c cs)
line-IsText c [] h t =
    All-append (λ c. c ≢ 0) (print_command c) (b'\n' ∷ []) (command-IsText c h) (omega arith, tt)
line-IsText c (d ∷ cs) h (hd, t) =
    All-append (λ c. c ≢ 0) (print_command c) (b'|' ∷ print_line d cs) (command-IsText c h)
      (omega arith, line-IsText d cs hd t)

command-IsWord : (c : List Bytes) → All IsArgument c → IsWord (codes "|") (print_command c)
command-IsWord c h = let (r, s) = starts c in ((λ e. cc (s, e)), command-clean c h)

last-IsWord :
    (c : List Bytes) → All IsArgument c → IsWord (codes "|") (print_command c ++ b'\n' ∷ [])
last-IsWord c h =
    let (r, s) = starts c in
    let e : print_command c ++ b'\n' ∷ [] ≡ b' ' ∷ (r ++ b'\n' ∷ []) =
      ap (λ (x : Bytes). x ++ b'\n' ∷ []) s in
    (
      (λ k. cc (e, k)),
      All-append (λ c. is_in (codes "|") c ≡ false) (print_command c) (b'\n' ∷ [])
          (command-clean c h) (refl, tt),
    )

texts-back :
    (c : List Bytes) (cs : List (List Bytes))
    → All IsArgument c
    → All (All IsArgument) cs
    → tokens (codes "|") (print_line c cs) ≡ texts c cs
texts-back c [] h t = tokens_last (codes "|") (print_command c ++ b'\n' ∷ []) (last-IsWord c h)
texts-back c (d ∷ cs) h (hd, t) =
    tokens_word (codes "|") (print_command c) (print_line d cs) b'|' (command-IsWord c h) refl
    ∙ ap (λ (x : List Bytes). print_command c ∷ x) (texts-back d cs hd t)

scan_cmd-back :
    (c : List Bytes) (tail : Bytes)
    → All IsArgument c
    → tokens (codes " \n") tail ≡ []
    → scan_cmd (print_command c ++ tail) ≡ command_of c
unfolding scan_cmd
scan_cmd-back c tail h e = ap command_of (words-back c tail h e)

newline : tokens (codes " \n") (b'\n' ∷ []) ≡ []
unfolding tokens_from
newline = refl

nothing : tokens (codes " \n") [] ≡ []
unfolding tokens_from
nothing = refl

commands-back :
    (c : List Bytes) (cs : List (List Bytes))
    → All IsArgument c
    → All (All IsArgument) cs
    → map scan_cmd (texts c cs) ≡ map command_of (c ∷ cs)
commands-back c [] h t = ap (λ (x : Command). x ∷ []) (scan_cmd-back c (b'\n' ∷ []) h newline)
commands-back c (d ∷ cs) h (hd, t) =
    let a : scan_cmd (print_command c) ≡ command_of c =
      ap scan_cmd (sym (append-nil (print_command c))) ∙ scan_cmd-back c [] h nothing in
    ap (λ (x : Command). x ∷ map scan_cmd (texts d cs)) a
    ∙ ap (λ (x : List Command). command_of c ∷ x) (commands-back d cs hd t)

texts-length : (c : List Bytes) (cs : List (List Bytes)) → length (texts c cs) ≡ suc (length cs)
texts-length c [] = refl
texts-length c (d ∷ cs) = ap suc (texts-length d cs)

-- A line on which commands are written out, each word behind a space and the commands with a bar in
-- between, is read back by `scan_cmds` as these commands, if there is a command and every word is one
-- of bytes other than NUL, the space, the newline and the bar; what `scan_cmds` has allocated for
-- them, `free_cmds_mem` gives back.
pub scan_cmds-print :
    (c : List Bytes) (cs : List (List Bytes)) (errno live : ℕ)
    → All IsArgument c
    → All (All IsArgument) cs
    → (r : CommandLine × ℕ) × (scan_cmds (some (print_line c cs)) errno live ≡ ok r)
      × (r.0.cmds ≡ map command_of (c ∷ cs))
      × (r.0.size ≡ suc (length cs))
      × (free_cmds_mem r.0 r.1 ≡ live)
unfolding scan_cmds scan_cmd_line free_cmds_mem
scan_cmds-print c cs errno live h t =
    let e : tokens (codes "|") (cstr (print_line c cs)) ≡ texts c cs =
      ap (tokens (codes "|")) (cstr_text (print_line c cs) (line-IsText c cs h t))
      ∙ texts-back c cs h t in
    (
      _,
      scan_cmds-ok (print_line c cs) errno live,
      ap (map scan_cmd) e ∙ commands-back c cs h t,
      ap length e ∙ texts-length c cs,
      given_back (tokens (codes "|") (cstr (print_line c cs))) live,
    )
