-- ===== src/SysService/Laws.antt =====
-- What the service does with the lines of a maps file.
use sem.Common.{
  ℕ, zero, suc, ◌+◌, ◌-◌, ◌≤◌, ◌<◌, ◌≡◌, ap, ◌∙◌, false, Option, none, some, List, [], ◌∷◌, ◌++◌,
  append_assoc, append-nil, Bytes, codes, length, tokens, replicate, ◌==◌, ok, arith,
}
use sem.SysService.Log.{return, create_log, create_log-IsPlain, >>=-ok}
use sem.SysService.Maps.{MapsLine, no_fields, parse_field, parse_fields, parse_maps_line}

-- The fields that the words of a line fill, from the first on.
unfoldable pub word : List Bytes → ℕ → Option Bytes
word [] i = none
word (w ∷ ws) zero = some w
word (w ∷ ws) (suc i) = word ws i

unfoldable pub fields : List Bytes → MapsLine
fields ws = record {
  address = word ws 0;
  perms = word ws 1;
  offset = word ws 2;
  device = word ws 3;
  inode = word ws 4;
  path = word ws 5;
}

abbrev pub too_many : Bytes
too_many = codes "Parsing maps line: FAIL"

not_small : (i k : ℕ) → 6 < i → k ≤ 6 → (i == k) ≡ false
not_small i k h l = ground arith

parse_field-extra :
    (i : ℕ) (w : Bytes) (p : MapsLine) (log : List Bytes)
    → 6 < i
    → parse_field i w p log ≡ ok (p, log ++ too_many ∷ [])
unfolding parse_field
parse_field-extra i w p log h =
    rw
      (
        not_small i 1 h (omega arith),
        not_small i 2 h (omega arith),
        not_small i 3 h (omega arith),
        not_small i 4 h (omega arith),
        not_small i 5 h (omega arith),
        not_small i 6 h (omega arith),
      )
      (>>=-ok (create_log too_many []) (λ _. return p) log
        (create_log-IsPlain too_many [] log (omega arith) (omega arith)))

-- From the seventh word on, each word leaves the line alone and a complaint in the log.
parse_fields-extra :
    (i : ℕ) (ws : List Bytes) (p : MapsLine) (log : List Bytes)
    → 6 < i
    → parse_fields i ws p log ≡ ok (p, log ++ replicate (length ws) too_many)
unfolding parse_fields
parse_fields-extra i [] p log h = rw append-nil
parse_fields-extra i (w ∷ ws) p log h =
    >>=-ok (parse_field i w p) (parse_fields (i + 1) ws) log (parse_field-extra i w p log h)
    ∙ parse_fields-extra (i + 1) ws p (log ++ too_many ∷ []) (omega arith)
    ∙ ap (λ (l : List Bytes). ok (p, l))
        (append_assoc log (too_many ∷ []) (replicate (length ws) too_many))

parse_fields_lem :
    (ws log : List Bytes)
    → parse_fields 1 ws no_fields log ≡ ok (fields ws, log ++ replicate (length ws - 6) too_many)
unfolding parse_fields parse_field fields word
parse_fields_lem [] log = rw append-nil
parse_fields_lem (a ∷ []) log = rw append-nil
parse_fields_lem (a ∷ b ∷ []) log = rw append-nil
parse_fields_lem (a ∷ b ∷ c ∷ []) log = rw append-nil
parse_fields_lem (a ∷ b ∷ c ∷ d ∷ []) log = rw append-nil
parse_fields_lem (a ∷ b ∷ c ∷ d ∷ e ∷ []) log = rw append-nil
parse_fields_lem (a ∷ b ∷ c ∷ d ∷ e ∷ f ∷ ws) log =
    let n : length (a ∷ b ∷ c ∷ d ∷ e ∷ f ∷ ws) - 6 ≡ length ws = omega arith in
    rw n (parse_fields-extra 7 ws (fields (a ∷ b ∷ c ∷ d ∷ e ∷ f ∷ [])) log (omega arith))

-- `parse_maps_line` puts the words of a line into the six fields in order, leaves the fields behind
-- the last word NULL, and logs one complaint for each word behind the sixth.
pub parse_maps_line_lem :
    (line : Bytes) (log : List Bytes)
    → parse_maps_line line log
      ≡ ok (
        fields (tokens (codes " \n") line),
        log ++ replicate (length (tokens (codes " \n") line) - 6) too_many,
      )
unfolding parse_maps_line
parse_maps_line_lem line log = parse_fields_lem (tokens (codes " \n") line) log
