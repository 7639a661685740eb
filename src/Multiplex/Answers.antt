-- ===== src/Multiplex/Answers.antt =====
-- The work on a request, and the client that waits for it.
use sem.Common.{
  Bool, Option, false, Run, if◌then◌else◌, same, append-nil, length-append, ℕ, suc, ◌+◌, ◌-◌, ◌<◌,
  ◌≡◌, ◌≢◌, ◌⊎◌, inl, inr, refl, sym, ap, ◌∙◌, true, some, none, List, [], ◌∷◌, ◌++◌, Bytes, codes,
  IsText, IsWord, tokens, tokens_from, tokens_word, tokens_last, take, take_all, length, replicate,
  overlay, ok, exit, fault, arith, All-append,
}
use sem.Multiplex.System.{returned, Mode, rdonly, wronly, System, word_of}
use sem.Multiplex.Server.{max_request, s_scan_request}
use sem.Multiplex.Work.{answer_words, s_processing_request}
use sem.Multiplex.Client.{cn_fifo_rel, cn_work, read_events}
use sem.Multiplex.Round.{zeros, read_clear, as_string-text}
use sem.Multiplex.Registration.{cn_open_fifo-ok}

scanned :
    (sys : System) (word : ℕ) (text : Bytes)
    → IsText text
    → length text < max_request
    → sys.read word ≡ some text
    → s_processing_request sys word ≡ answer_words word (tokens (codes " ") text)
unfolding s_processing_request s_scan_request
scanned sys word text h l e =
    let m : ℕ = max_request - length text - 1 in
    let a : length text + suc m ≡ max_request = omega (arith, l) in
    let b : take max_request text ≡ text = take_all max_request text (omega (arith, l)) in
    let c : overlay 0 text (replicate max_request 0) ≡ text ++ 0 ∷ zeros m =
      ap (λ (n : ℕ). overlay 0 text (zeros n)) (sym a) ∙ read_clear text (suc m) in
    let d = as_string-text text (zeros m) h in
    rw (s_processing_request, s_scan_request, e, b, c, d) refl

-- A request of GET and one other word is answered on the very descriptor that it came from, the word
-- of the event.
pub get-answered :
    (sys : System) (word : ℕ) (path : Bytes)
    → IsText path
    → IsWord (codes " ") path
    → length path + 4 < max_request
    → sys.read word ≡ some (codes "GET " ++ path)
    → s_processing_request sys word ≡ ok (some (word, codes "Hello!"))
unfolding answer_words
get-answered sys word path h w l e =
    scanned sys word (codes "GET " ++ path)
      (All-append (λ c. c ≢ 0) (codes "GET ") path (omega arith) h) (omega (arith, l)) e
    ∙ ap (answer_words word) (
        tokens_word (codes " ") (codes "GET") path b' ' ((λ x. cc), (refl, (refl, (refl, tt)))) refl
        ∙ ap (λ (ts : List Bytes). codes "GET" ∷ ts) (tokens_last (codes " ") path w))

-- A request of one word, or of none, makes the server read through a null pointer.
pub lone_word-faults :
    (sys : System) (word : ℕ) (text : Bytes)
    → IsText text
    → length text < max_request
    → (text ≡ []) ⊎ IsWord (codes " ") text
    → sys.read word ≡ some text
    → s_processing_request sys word ≡ fault
unfolding answer_words tokens_from
lone_word-faults sys word text h l (inl z) e =
    scanned sys word text h l e ∙ ap (λ (x : Bytes). answer_words word (tokens (codes " ") x)) z
lone_word-faults sys word text h l (inr w) e =
    scanned sys word text h l e ∙ ap (answer_words word) (tokens_last (codes " ") text w)

-- A system in which every read gives the text.
abbrev pub reads : System → Bytes → System
reads sys text = record sys { read = λ fd. some text }

-- What may stand behind the path.
abbrev pub IsTail : Bytes → Type 0
IsTail tail = (tail ≡ []) ⊎ ((rest : Bytes) × (tail ≡ b' ' ∷ rest))

path_word :
    (path tail : Bytes)
    → IsWord (codes " ") path
    → IsTail tail
    → (ts : List Bytes) × (tokens (codes " ") (path ++ tail) ≡ path ∷ ts)
path_word path tail w (inl e) = (
  [],
  ap (λ (x : Bytes). tokens (codes " ") (path ++ x)) e
      ∙ ap (tokens (codes " ")) (append-nil path)
      ∙ tokens_last (codes " ") path w,
)
path_word path tail w (inr (rest, e)) = (
  tokens (codes " ") rest,
  ap (λ (x : Bytes). tokens (codes " ") (path ++ x)) e
      ∙ tokens_word (codes " ") path rest b' ' w refl,
)

-- A request of fewer than 512 bytes, a command, a blank and a path, and what may follow behind another
-- blank, is answered with `Hello!`, if the command is GET, on the very descriptor that it came from, the
-- word of the event, and by nothing for another command; a request of the command alone, or of nothing,
-- makes the server read through a null pointer.
pub request_outcomes :
    (sys : System) (word : ℕ) (cmd path tail : Bytes)
    → IsText cmd
    → IsText path
    → IsText tail
    → IsWord (codes " ") cmd
    → IsWord (codes " ") path
    → IsTail tail
    → length cmd + length path + length tail + 1 < max_request
    → (s_processing_request (reads sys (cmd ++ b' ' ∷ (path ++ tail))) word
        ≡ ok (if same cmd (codes "GET") then some (word, codes "Hello!") else none))
      × (s_processing_request (reads sys cmd) word ≡ fault)
      × (s_processing_request (reads sys []) word ≡ fault)
unfolding answer_words
request_outcomes sys word cmd path tail h k m w v t l =
    let text = cmd ++ b' ' ∷ (path ++ tail) in
    let n : length text ≡ length cmd + length path + length tail + 1 =
      omega (arith, length-append cmd (b' ' ∷ (path ++ tail)), length-append path tail) in
    let is_text =
      All-append (λ c. c ≢ 0) cmd (b' ' ∷ (path ++ tail)) h
        (omega arith, All-append (λ c. c ≢ 0) path tail k m) in
    let (ts, e) = path_word path tail v t in
    let words : tokens (codes " ") text ≡ cmd ∷ path ∷ ts =
      tokens_word (codes " ") cmd (path ++ tail) b' ' w refl ∙ ap (λ (x : List Bytes). cmd ∷ x) e in
    (
      scanned (reads sys text) word text is_text (omega (arith, l, n)) refl
          ∙ ap (answer_words word) words
          ∙ choice (same cmd (codes "GET")),
      lone_word-faults (reads sys cmd) word cmd h (omega (arith, l)) (inr w) refl,
      lone_word-faults (reads sys []) word [] tt (omega arith) (inl refl) refl,
    )
  where
    choice :
        (b : Bool)
        → ◌≡◌ {A = Run (Option (ℕ × Bytes))}
            (if b then ok (some (word, codes "Hello!")) else ok none)
            (ok (if b then some (word, codes "Hello!") else none))
    choice true = refl
    choice false = refl

-- The client registers the end of `tx` that it writes to for the answer: where that end cannot be
-- read, the first event ends the client with 1.
pub cn_work-exits :
    (sys : System) (fd : Bytes → Mode → ℕ) (tx rx request : Bytes) (count : ℕ)
    → ((path : Bytes) (mode : Mode) → sys.opens path mode ≡ returned (fd path mode))
    → length tx < 200
    → length rx < 200
    → sys.epoll_add [] 0 ≡ true
    → sys.read (word_of (some (fd (cn_fifo_rel ++ tx) wronly))) ≡ none
    → cn_work sys tx rx (some request) (suc count) ≡ exit 1
unfolding cn_work read_events
cn_work-exits sys fd tx rx request count opens h k a r =
    rw
      (
        cn_open_fifo-ok sys fd opens tx wronly h,
        cn_open_fifo-ok sys fd opens rx rdonly k,
        a,
        read_events,
        r,
      )
      refl
