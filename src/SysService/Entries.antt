-- ===== src/SysService/Entries.antt =====
-- Pieces of the service that always succeed and add the same entries to any log.
use sem.Common.{
  ◌-◌, ◌<◌, ◌≡◌, ap, ◌∙◌, false, some, List, [], ◌∷◌, ◌++◌, append_assoc, append-nil, Bytes, codes,
  length, tokens, replicate, ok, arith, All,
}
use sem.SysService.Log.{
  Logged, ◌>>=◌, return, create_log, create_log-IsPlain, vsprintf, append_log, IsPlain, >>=-ok,
}
use sem.SysService.Maps.{
  MapsLine, parse_maps_line, line_text, print_parsed_maps_line, check_parse_maps_line_err,
  parse_lines,
}
use sem.SysService.Laws.{fields, too_many, parse_maps_line_lem}
use sem.SysService.Reports.{IsPrintable, print_parsed_maps_line-ok}

abbrev pub Says : {A : Type 0} → Logged A → A → List Bytes → Type 0
Says m a es = (log : List Bytes) → m log ≡ ok (a, log ++ es)

pub Says-chain :
    {A B : Type 0} (m : Logged A) (f : A → Logged B) {a : A} {b : B} (es fs : List Bytes)
    → Says m a es
    → Says (f a) b fs
    → Says (m >>= f) b (es ++ fs)
Says-chain m f {a} {b} es fs h k log =
    >>=-ok m f log (h log)
    ∙ k (log ++ es)
    ∙ ap (λ (l : List Bytes). ok (b, l)) (append_assoc log es fs)

pub Says-return : {A : Type 0} (a : A) → Says (return a) a []
Says-return a log = rw append-nil

pub Says-plain :
    (msg : Bytes) → IsPlain msg → length msg < 230 → Says (create_log msg []) tt (msg ∷ [])
Says-plain msg h l log = create_log-IsPlain msg [] log h l

pub Says-printed :
    (format : Bytes) (args : List Bytes) (msg : Bytes)
    → vsprintf false format args ≡ ok msg
    → length msg < 230
    → Says (create_log format args) tt (msg ∷ [])
unfolding create_log append_log
Says-printed format args msg h l log = rw (h, create_log) (ground arith)

-- What the parse of a line, and of the lines of a file, adds to the log, and the table that it makes.
abbrev pub words : Bytes → List Bytes
words line = tokens (codes " \n") line

abbrev pub line_entries : Bytes → List Bytes
line_entries line =
    replicate (length (words line) - 6) too_many ++ line_text (fields (words line)) ∷ []

abbrev pub lines_entries : List Bytes → List Bytes
lines_entries [] = []
lines_entries (line ∷ lines) = line_entries line ++ lines_entries lines

abbrev pub table : List Bytes → List MapsLine
table [] = []
table (line ∷ lines) = fields (words line) ∷ table lines

pub parse_lines-Says :
    (lines : List Bytes) (before : List MapsLine)
    → All IsPrintable (table lines)
    → Says
        (parse_lines lines before)
        (some (length (before ++ table lines)), before ++ table lines)
        (lines_entries lines)
unfolding parse_lines check_parse_maps_line_err
parse_lines-Says [] before h log = rw (append-nil before, append-nil log)
parse_lines-Says (line ∷ lines) before (hp, h) log =
    let p = fields (words line) in
    let extra = replicate (length (words line) - 6) too_many in
    let rest : Says (parse_lines lines (before ++ p ∷ []))
        (some (length ((before ++ p ∷ []) ++ table lines)), (before ++ p ∷ []) ++ table lines)
        (lines_entries lines) =
      λ l. parse_lines-Says lines (before ++ p ∷ []) h l in
    let k : Says (parse_lines lines (before ++ p ∷ []))
        (some (length (before ++ p ∷ table lines)), before ++ p ∷ table lines)
        (lines_entries lines) =
      rw (append_assoc before (p ∷ []) (table lines)) at rest in
    rw (append_assoc extra (line_text p ∷ []) (lines_entries lines)) (
      Says-chain (parse_maps_line line) _ extra (line_text p ∷ lines_entries lines)
        (parse_maps_line_lem line)
        (Says-chain (print_parsed_maps_line p) (λ _. parse_lines lines (before ++ p ∷ []))
          (line_text p ∷ []) (lines_entries lines) (λ l. print_parsed_maps_line-ok p l hp) k)
        log)
