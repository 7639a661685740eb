-- ===== src/SysService/Reports.antt =====
-- Which lines `PML_diff` reports, and what a round of the service does with its tables.
use sem.Common.{
  ◌≤◌, ◌<◌, ◌≡◌, ◌∙◌, refl, ap, Option, none, some, same, Bool, true, false, ◌||◌, List, [], ◌∷◌,
  ◌++◌, append_assoc, append-nil, Bytes, codes, length, take_all, ltb, if◌then◌else◌, ok, fault,
  arith, All,
}
use sem.SysService.Log.{Logged, ◌>>◌, create_log, create_log-IsPlain, IsPlain, >>=-ok}
use sem.SysService.Maps.{MapsLine, line_text, print_parsed_maps_line}
use sem.SysService.Diff.{field_differs, print_diff_pml, diff_line, diff_lines, pml_diff}

-- A line whose text fits the log and holds no conversion.
abbrev pub IsPrintable : MapsLine → Type 0
IsPrintable p = IsPlain (line_text p) × (length (line_text p) < 230)

-- Two fields are there, and their texts are not the same.
abbrev pub changed : Option Bytes → Option Bytes → Bool
changed (some a) (some b) = if same a b then false else true
changed (some a) none = false
changed none b = false

-- Two lines differ in a field that both have.
abbrev pub differ : MapsLine → MapsLine → Bool
differ c n =
    changed c.address n.address
    || (changed c.perms n.perms
        || (changed c.offset n.offset
            || (changed c.device n.device || (changed c.inode n.inode || changed c.path n.path))))

field_differs-changed : (a b : Option Bytes) → field_differs a b ≡ changed a b
field_differs-changed none b = refl
field_differs-changed (some a) none = refl
field_differs-changed (some a) (some b) = ground arith

abbrev pub report : MapsLine → MapsLine → List Bytes
report c n = codes "<<<<<<<" ∷ line_text c ∷ codes "=======" ∷ line_text n ∷ codes ">>>>>>>" ∷ []

-- The reports on two arrays, up to the end of the shorter one.
pub reports : List MapsLine → List MapsLine → List Bytes
reports [] next = []
reports (c ∷ cur) [] = []
reports (c ∷ cur) (n ∷ next) =
    if differ c n then report c n ++ reports cur next else reports cur next

say :
    {B : Type 0} (msg : Bytes) (k : Logged B) (log : List Bytes)
    → IsPlain msg
    → length msg < 230
    → (create_log msg [] >> k) log ≡ k (log ++ msg ∷ [])
say msg k log h l = >>=-ok (create_log msg []) (λ _. k) log (create_log-IsPlain msg [] log h l)

pub print_parsed_maps_line-ok :
    (p : MapsLine) (log : List Bytes)
    → IsPrintable p
    → print_parsed_maps_line p log ≡ ok (tt, log ++ line_text p ∷ [])
unfolding print_parsed_maps_line
print_parsed_maps_line-ok p log (h, l) =
    let fits : ltb (length (line_text p)) 232 ≡ true = ground arith in
    rw fits (create_log-IsPlain (line_text p) [] log h l)

print_diff_pml-ok :
    (c n : MapsLine) (log : List Bytes)
    → IsPrintable c
    → IsPrintable n
    → print_diff_pml c n log ≡ ok (tt, log ++ report c n)
unfolding print_diff_pml
print_diff_pml-ok c n log hc hn =
    say (codes "<<<<<<<") _ log (omega arith) (omega arith)
    ∙ >>=-ok (print_parsed_maps_line c) _ _ (print_parsed_maps_line-ok c _ hc)
    ∙ say (codes "=======") _ _ (omega arith) (omega arith)
    ∙ >>=-ok (print_parsed_maps_line n) _ _ (print_parsed_maps_line-ok n _ hn)
    ∙ create_log-IsPlain (codes ">>>>>>>") [] _ (omega arith) (omega arith)
    ∙ simp append_assoc

-- The same with the test of the code.
abbrev tested : MapsLine → MapsLine → Bool
tested c n =
    field_differs c.address n.address
    || (field_differs c.perms n.perms
        || (field_differs c.offset n.offset
            || (field_differs c.device n.device
                || (field_differs c.inode n.inode || field_differs c.path n.path))))

tested-differ : (c n : MapsLine) → tested c n ≡ differ c n
tested-differ c n =
    rw
      (
        field_differs-changed c.address n.address,
        field_differs-changed c.perms n.perms,
        field_differs-changed c.offset n.offset,
        field_differs-changed c.device n.device,
        field_differs-changed c.inode n.inode,
        field_differs-changed c.path n.path,
      )
      refl

diff_line-tested :
    (c n : MapsLine) (log : List Bytes)
    → IsPrintable c
    → IsPrintable n
    → diff_line c n log ≡ ok (tt, log ++ (if tested c n then report c n else []))
unfolding diff_line
diff_line-tested c n log hc hn = ground (arith, print_diff_pml-ok c n log hc hn, append-nil log)

diff_line-ok :
    (c n : MapsLine) (log : List Bytes)
    → IsPrintable c
    → IsPrintable n
    → diff_line c n log ≡ ok (tt, log ++ (if differ c n then report c n else []))
diff_line-ok c n log hc hn =
    diff_line-tested c n log hc hn
    ∙ ap (λ (b : Bool). ok (tt, log ++ (if b then report c n else []))) (tested-differ c n)

diff_lines-ok :
    (cur next : List MapsLine) (log : List Bytes)
    → All IsPrintable cur
    → All IsPrintable next
    → diff_lines cur next log ≡ ok (tt, log ++ reports cur next)
unfolding diff_lines reports
diff_lines-ok [] next log h k = rw append-nil
diff_lines-ok (c ∷ cur) [] log h k = rw append-nil
diff_lines-ok (c ∷ cur) (n ∷ next) log (hc, h) (hn, k) =
    >>=-ok (diff_line c n) (λ _. diff_lines cur next) log (diff_line-ok c n log hc hn)
    ∙ diff_lines-ok cur next (log ++ (if differ c n then report c n else [])) h k
    ∙ ground (arith, append_assoc log (report c n) (reports cur next), append-nil log)

-- `PML_diff` of two arrays of printable lines, with their lengths for counts, logs both lines of
-- each pair that stands at one index and differs in a field which both have, in the order of the
-- indices up to the end of the shorter array, and nothing else but its first and last message.
pub pml_diff-reports :
    (cur next : List MapsLine) (log : List Bytes)
    → All IsPrintable cur
    → All IsPrintable next
    → pml_diff cur (length cur) next (length next) log
      ≡ ok (
        tt,
        log
            ++ (codes "Diff is started.."
                ∷ (reports cur next ++ codes "Diff was completed SUCCESSFULLY\n" ∷ [])),
      )
unfolding pml_diff
pml_diff-reports cur next log h k =
    rw (take_all (length cur) cur (omega arith), take_all (length next) next (omega arith))
      (say (codes "Diff is started..") _ log (omega arith) (omega arith)
        ∙ >>=-ok (diff_lines cur next) _ _ (diff_lines-ok cur next _ h k)
        ∙ create_log-IsPlain (codes "Diff was completed SUCCESSFULLY\n") [] _ (omega arith)
            (omega arith)
        ∙ simp append_assoc)

-- A line of 232 characters or more overruns the array in which it is put together.
pub print_parsed_maps_line-overrun :
    (p : MapsLine) (log : List Bytes)
    → 232 ≤ length (line_text p)
    → print_parsed_maps_line p log ≡ fault
unfolding print_parsed_maps_line
print_parsed_maps_line-overrun p log h =
    let long : ltb (length (line_text p)) 232 ≡ false = ground arith in rw long
