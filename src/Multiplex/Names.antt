-- ===== src/Multiplex/Names.antt =====
-- The names of a client's fifos, as the client prints them and the server reads them.
use sem.Common.{
  ℕ, ◌+◌, ◌<◌, ◌≡◌, ◌≢◌, refl, ap, ◌∙◌, true, false, none, some, List, [], ◌∷◌, ◌++◌, Bytes, codes,
  decimal, IsText, IsDigit, decimal-All, length, length-append, tokens, tokens_word, tokens_last,
  IsWord, is_in, ◌==◌, ltb, ok, arith, All, All-append, append_assoc,
}
use sem.Multiplex.Server.{max_path, print_into, after_slash, base_name}
use sem.Multiplex.Client.{cn_fifo_rel, reg_command}

-- A character of a fifo's name.
abbrev pub IsNameChar : ℕ → Type 0
IsNameChar c = (c ≢ b'/') × (c ≢ b' ') × (c ≢ 0)

abbrev pub fifo_name : ℕ → Bytes → Bytes
fifo_name pid suf = codes "fifo" ++ (decimal pid ++ (codes "_" ++ suf))

digits-name : (s : Bytes) → All IsDigit s → All IsNameChar s
digits-name [] h = tt
digits-name (c ∷ s) (hc, h) =
    ((omega (arith, hc), omega (arith, hc), omega (arith, hc)), digits-name s h)

pub fifo_name-All :
    (pid : ℕ) (suf : Bytes) → All IsNameChar suf → All IsNameChar (fifo_name pid suf)
fifo_name-All pid suf h =
    All-append IsNameChar (codes "fifo") (decimal pid ++ (codes "_" ++ suf)) (omega arith) (
      All-append IsNameChar (decimal pid) (codes "_" ++ suf)
        (digits-name (decimal pid) (decimal-All pid))
        (All-append IsNameChar (codes "_") suf (omega arith) h))

after_slash-none : (s : Bytes) → All IsNameChar s → after_slash s ≡ none
unfolding after_slash
after_slash-none [] h = refl
after_slash-none (c ∷ s) (hc, h) =
    let e : (c == b'/') ≡ false = ground arith in rw (after_slash-none s h, e) refl

-- The server takes the name behind the last slash of the path.
after_slash-path : (s : Bytes) → All IsNameChar s → after_slash (cn_fifo_rel ++ s) ≡ some s
unfolding after_slash
after_slash-path s h = rw (after_slash-none s h) refl

pub base_name-path :
    (s : Bytes) → All IsNameChar s → length s < max_path → base_name (cn_fifo_rel ++ s) ≡ ok s
unfolding print_into after_slash
base_name-path s h l =
    let e : ltb (length s) max_path ≡ true = ground arith in rw (after_slash-path s h, e) refl

no_spaces : (s : Bytes) → All (λ c. c ≢ b' ') s → All (λ c. is_in (codes " ") c ≡ false) s
no_spaces [] h = tt
no_spaces (c ∷ s) (hc, h) = (ground arith, no_spaces s h)

name_spaces : (s : Bytes) → All IsNameChar s → All (λ c. c ≢ b' ') s
name_spaces [] h = tt
name_spaces (c ∷ s) (hc, h) = (hc.1, name_spaces s h)

path-IsWord : (s : Bytes) → All IsNameChar s → IsWord (codes " ") (cn_fifo_rel ++ s)
path-IsWord s h = (
  (λ e. cc),
  no_spaces (cn_fifo_rel ++ s)
      (All-append (λ c. c ≢ b' ') cn_fifo_rel s (omega arith) (name_spaces s h)),
)

pub tokens-two_paths :
    (tx rx : Bytes)
    → All IsNameChar tx
    → All IsNameChar rx
    → tokens (codes " ") ((cn_fifo_rel ++ tx) ++ b' ' ∷ (cn_fifo_rel ++ rx))
      ≡ (cn_fifo_rel ++ tx) ∷ (cn_fifo_rel ++ rx) ∷ []
tokens-two_paths tx rx h k =
    tokens_word (codes " ") (cn_fifo_rel ++ tx) (cn_fifo_rel ++ rx) b' ' (path-IsWord tx h) refl
    ∙ ap (λ (l : List Bytes). (cn_fifo_rel ++ tx) ∷ l)
        (tokens_last (codes " ") (cn_fifo_rel ++ rx) (path-IsWord rx k))

-- The line that the server makes of a client's command.
abbrev pub reg_line : Bytes → Bytes → Bytes
reg_line tx rx = codes "REGISTER" ++ b' ' ∷ ((cn_fifo_rel ++ tx) ++ b' ' ∷ (cn_fifo_rel ++ rx))

pub tokens-reg_line :
    (tx rx : Bytes)
    → All IsNameChar tx
    → All IsNameChar rx
    → tokens (codes " ") (reg_line tx rx)
      ≡ codes "REGISTER" ∷ (cn_fifo_rel ++ tx) ∷ (cn_fifo_rel ++ rx) ∷ []
tokens-reg_line tx rx h k =
    tokens_word (codes " ") (codes "REGISTER") ((cn_fifo_rel ++ tx) ++ b' ' ∷ (cn_fifo_rel ++ rx))
      b' ' ((λ e. cc), no_spaces (codes "REGISTER") (omega arith)) refl
    ∙ ap (λ (l : List Bytes). codes "REGISTER" ∷ l) (tokens-two_paths tx rx h k)

-- The command of the client is that line and a newline.
pub reg_command-line :
    (tx rx : Bytes)
    → reg_command (cn_fifo_rel ++ tx) (cn_fifo_rel ++ rx) ≡ reg_line tx rx ++ codes "\n"
reg_command-line tx rx = simp append_assoc

name-IsText : (s : Bytes) → All IsNameChar s → IsText s
name-IsText [] h = tt
name-IsText (c ∷ s) (hc, h) = (hc.2, name-IsText s h)

pub path-IsText : (s : Bytes) → All IsNameChar s → IsText (cn_fifo_rel ++ s)
path-IsText s h = All-append (λ c. c ≢ 0) cn_fifo_rel s (omega arith) (name-IsText s h)

-- And it is a text.
pub reg_line-IsText :
    (tx rx : Bytes) → All IsNameChar tx → All IsNameChar rx → All (λ c. c ≢ 0) (reg_line tx rx)
reg_line-IsText tx rx h k =
    All-append (λ c. c ≢ 0) (codes "REGISTER" ++ b' ' ∷ [])
      ((cn_fifo_rel ++ tx) ++ b' ' ∷ (cn_fifo_rel ++ rx)) (omega arith)
      (All-append (λ c. c ≢ 0) (cn_fifo_rel ++ tx) (b' ' ∷ (cn_fifo_rel ++ rx)) (path-IsText tx h)
        (omega arith, path-IsText rx k))

pub length-reg_line : (tx rx : Bytes) → length (reg_line tx rx) ≡ 54 + length tx + length rx
length-reg_line tx rx = omega (arith, length-append tx (b' ' ∷ (cn_fifo_rel ++ rx)))

-- A line with more words behind that of a client.
pub tokens-more_words :
    (tx rx more : Bytes)
    → All IsNameChar tx
    → All IsNameChar rx
    → tokens (codes " ") (reg_line tx rx ++ b' ' ∷ more)
      ≡ codes "REGISTER" ∷ (cn_fifo_rel ++ tx) ∷ (cn_fifo_rel ++ rx) ∷ tokens (codes " ") more
tokens-more_words tx rx more h k =
    let last = (cn_fifo_rel ++ rx) ++ b' ' ∷ more in
    let a : reg_line tx rx ++ b' ' ∷ more
        ≡ codes "REGISTER" ++ b' ' ∷ ((cn_fifo_rel ++ tx) ++ b' ' ∷ last) =
      simp append_assoc in
    ap (tokens (codes " ")) a
    ∙ tokens_word (codes " ") (codes "REGISTER") ((cn_fifo_rel ++ tx) ++ b' ' ∷ last) b' '
        ((λ e. cc), no_spaces (codes "REGISTER") (omega arith)) refl
    ∙ ap (λ (l : List Bytes). codes "REGISTER" ∷ l)
        (tokens_word (codes " ") (cn_fifo_rel ++ tx) last b' ' (path-IsWord tx h) refl
          ∙ ap (λ (l : List Bytes). (cn_fifo_rel ++ tx) ∷ l)
              (tokens_word (codes " ") (cn_fifo_rel ++ rx) more b' ' (path-IsWord rx k) refl))
