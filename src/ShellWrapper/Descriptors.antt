-- ===== src/ShellWrapper/Descriptors.antt =====
-- The descriptors above the standard ones that a shell with older ends of pipes and its children keep.
use sem.Common.{
  ℕ, ◌+◌, ◌<◌, ◌≤◌, ◌≡◌, refl, ap, false, List, [], ◌∷◌, ◌++◌, append_assoc, arith, All,
}
use sem.ShellWrapper.Pipeline.{End, terminal, read_end, write_end, same_end, close}

-- An end of a pipe made before the pipe `p`.
abbrev pub IsBelow : ℕ → End → Type 0
IsBelow p terminal = Unit {0}
IsBelow p (read_end q) = q < p
IsBelow p (write_end q) = q < p

same_end-read : (p q : ℕ) (e : End) → IsBelow p e → p ≤ q → same_end (read_end q) e ≡ false
same_end-read p q terminal h l = refl
same_end-read p q (read_end r) h l = ground arith
same_end-read p q (write_end r) h l = refl

same_end-write : (p q : ℕ) (e : End) → IsBelow p e → p ≤ q → same_end (write_end q) e ≡ false
same_end-write p q terminal h l = refl
same_end-write p q (read_end r) h l = refl
same_end-write p q (write_end r) h l = ground arith

close-read :
    (p q : ℕ) (ds es : List End)
    → All (IsBelow p) ds
    → p ≤ q
    → close (read_end q) (ds ++ es) ≡ ds ++ close (read_end q) es
unfolding close
close-read p q [] es h l = refl
close-read p q (d ∷ ds) es (hd, h) l =
    rw (same_end-read p q d hd l) (ap (λ (x : List End). d ∷ x) (close-read p q ds es h l))

close-write :
    (p q : ℕ) (ds es : List End)
    → All (IsBelow p) ds
    → p ≤ q
    → close (write_end q) (ds ++ es) ≡ ds ++ close (write_end q) es
unfolding close
close-write p q [] es h l = refl
close-write p q (d ∷ ds) es (hd, h) l =
    rw (same_end-write p q d hd l) (ap (λ (x : List End). d ∷ x) (close-write p q ds es h l))

close_written :
    (q p : ℕ)
    → close (write_end p) (read_end q ∷ read_end p ∷ write_end p ∷ [])
      ≡ read_end q ∷ read_end p ∷ []
unfolding close
close_written q p = ground arith

close_read : (q : ℕ) (es : List End) → close (read_end q) (read_end q ∷ es) ≡ es
unfolding close
close_read q es = ground arith

close_fresh :
    (q : ℕ)
    → close (read_end (q + 1)) (read_end q ∷ read_end (q + 1) ∷ write_end (q + 1) ∷ [])
      ≡ read_end q ∷ write_end (q + 1) ∷ []
unfolding close
close_fresh q = ground arith

pub above : (kept : List End) (q : ℕ) → All (IsBelow q) kept → All (IsBelow (q + 1)) kept
above [] q h = tt
above (terminal ∷ kept) q (hd, h) = (tt, above kept q h)
above (read_end r ∷ kept) q (hd, h) = (omega (arith, hd), above kept q h)
above (write_end r ∷ kept) q (hd, h) = (omega (arith, hd), above kept q h)

abbrev pub with_pipe : List End → ℕ → List End
with_pipe opened p = opened ++ read_end p ∷ write_end p ∷ []

pub parent_closes :
    (kept : List End) (q : ℕ)
    → All (IsBelow q) kept
    → close (read_end q) (close (write_end (q + 1)) (with_pipe (kept ++ read_end q ∷ []) (q + 1)))
      ≡ kept ++ read_end (q + 1) ∷ []
parent_closes kept q h =
    rw
      (
        append_assoc kept (read_end q ∷ []) (read_end (q + 1) ∷ write_end (q + 1) ∷ []),
        close-write (q + 1) (q + 1) kept (read_end q ∷ read_end (q + 1) ∷ write_end (q + 1) ∷ [])
            (above kept q h) (omega arith),
        close_written q (q + 1),
        close-read q q kept (read_end q ∷ read_end (q + 1) ∷ []) h (omega arith),
        close_read q (read_end (q + 1) ∷ []),
      )
      refl

pub child_closes :
    (kept : List End) (q : ℕ)
    → All (IsBelow q) kept
    → close (read_end (q + 1)) (with_pipe (kept ++ read_end q ∷ []) (q + 1))
      ≡ kept ++ read_end q ∷ write_end (q + 1) ∷ []
child_closes kept q h =
    rw
      (
        append_assoc kept (read_end q ∷ []) (read_end (q + 1) ∷ write_end (q + 1) ∷ []),
        close-read (q + 1) (q + 1) kept (read_end q ∷ read_end (q + 1) ∷ write_end (q + 1) ∷ [])
            (above kept q h) (omega arith),
        close_fresh q,
      )
      refl

pub first_child :
    (kept : List End) (p : ℕ)
    → All (IsBelow p) kept
    → close (read_end p) (with_pipe kept p) ≡ kept ++ write_end p ∷ []
first_child kept p h =
    rw
      (
        close-read p p kept (read_end p ∷ write_end p ∷ []) h (omega arith),
        close_read p (write_end p ∷ []),
      )
      refl

close_first : (p : ℕ) → close (write_end p) (read_end p ∷ write_end p ∷ []) ≡ read_end p ∷ []
unfolding close
close_first p = ground arith

pub first_parent :
    (kept : List End) (p : ℕ)
    → All (IsBelow p) kept
    → close (write_end p) (with_pipe kept p) ≡ kept ++ read_end p ∷ []
first_parent kept p h =
    rw (close-write p p kept (read_end p ∷ write_end p ∷ []) h (omega arith), close_first p) refl
