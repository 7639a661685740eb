-- ===== src/SysService/Diff.antt =====
-- task6/sys-service/src/ss_start.c: `PML_diff` and `PML_swap`, with `print_diff_PML` of
-- src/ss_log.c.
use sem.Common.{
  ℕ, Bool, false, Option, none, some, List, [], ◌∷◌, Bytes, codes, take, same, not, if◌then◌else◌,
}
use sem.SysService.Log.{Logged, ◌>>=◌, ◌>>◌, return, create_log}
use sem.SysService.Maps.{MapsLine, print_parsed_maps_line, free_pml}

-- The test of one field: two fields that are there, with different texts.
abbrev pub field_differs : Option Bytes → Option Bytes → Bool
field_differs none b = false
field_differs (some a) none = false
field_differs (some a) (some b) = not (same a b)

unfoldable pub print_diff_pml : MapsLine → MapsLine → Logged (Unit {0})
print_diff_pml cur next = do
  create_log (codes "<<<<<<<") []
  print_parsed_maps_line cur
  create_log (codes "=======") []
  print_parsed_maps_line next
  create_log (codes ">>>>>>>") []

-- A round of the loop of `PML_diff`: the first field that differs prints both lines, and the rest
-- are skipped.
unfoldable pub diff_line : MapsLine → MapsLine → Logged (Unit {0})
diff_line cur next =
    if field_differs cur.address next.address
    then print_diff_pml cur next
    else if field_differs cur.perms next.perms
    then print_diff_pml cur next
    else if field_differs cur.offset next.offset
    then print_diff_pml cur next
    else if field_differs cur.device next.device
    then print_diff_pml cur next
    else if field_differs cur.inode next.inode
    then print_diff_pml cur next
    else if field_differs cur.path next.path
    then print_diff_pml cur next
    else return tt

-- The loop `i < cnt_next && i < cnt_cur`, over the two arrays from `i` on.
unfoldable pub diff_lines : List MapsLine → List MapsLine → Logged (Unit {0})
diff_lines [] next = return tt
diff_lines (c ∷ cur) [] = return tt
diff_lines (c ∷ cur) (n ∷ next) = diff_line c n >>= λ _. diff_lines cur next

unfoldable pub pml_diff : List MapsLine → ℕ → List MapsLine → ℕ → Logged (Unit {0})
pml_diff cur cnt_cur next cnt_next = do
  create_log (codes "Diff is started..") []
  diff_lines (take cnt_cur cur) (take cnt_next next)
  create_log (codes "Diff was completed SUCCESSFULLY\n") []

-- The variables of `start_service`, and the number of live heap blocks.
pub record Tables : Type 0 where
  pub cur : List MapsLine
  pub num_lns_cur : ℕ
  pub next : List MapsLine
  pub num_lns_next : ℕ
  pub live : ℕ

-- `PML_swap`: the arrays change places, the old one is freed, and its pointer is NULL.
unfoldable pub pml_swap : Tables → Logged Tables
pml_swap t = do
  create_log (codes "Swapping is started..") []
  live ← free_pml t.cur t.num_lns_cur t.live
  create_log (codes "Swap: SUCCEED\n") []
  return (record {
    cur = t.next;
    num_lns_cur = t.num_lns_next;
    next = [];
    num_lns_next = 0;
    live = live;
  })
