-- ===== src/ShrMem/Semaphores.antt =====
-- task3/shr-mem-SYSV/src/sm_sem.c: `MySemOpen` and `MySemRemove`, and what src/sm_main.c
-- does with them at the end. The semaphores of the system are a list of identifiers with values.
use sem.Common.{
  ℕ, ◌≡◌, ◌⊎◌, inl, inr, refl, Option, none, some, List, [], ◌∷◌, ◌==◌, if◌then◌else◌, ◌++◌, Bool,
  true, false, Bool-cases, ap, sym, ◌∙◌, append-nil, append_assoc, Run, ok, exit, fault,
}

-- The values of errno that the code looks at.
pub data Errno : Type 0 where
  enoent eexist other_error : Errno

-- What ftok or semget returns: a key or an identifier, or -1.
pub data Result : Type 0 where
  got : ℕ → Result
  failed_with : Errno → Result

abbrev pub Store : Type 0
Store = List (ℕ × ℕ)

-- `semctl` with SETVAL, and with IPC_RMID; on the identifier -1 both fail.
abbrev pub setval : ℕ → ℕ → Store → Store
setval id value [] = []
setval id value ((i, v) ∷ store) =
    let rest = setval id value store in if i == id then (i, value) ∷ store else (i, v) ∷ rest

abbrev pub remove_id : ℕ → Store → Store
remove_id id [] = []
remove_id id ((i, v) ∷ store) =
    let rest = remove_id id store in if i == id then store else (i, v) ∷ rest

abbrev pub rmid : Result → Store → Store
rmid (got id) store = remove_id id store
rmid (failed_with e) store = store

-- The loop that waits until `sem_otime` is not zero, on the values it sees; `none` is a wait that
-- goes on.
unfoldable pub await_otime : ℕ → List ℕ → Run (Option ℕ)
await_otime id [] = ok none
await_otime id (otime ∷ otimes) =
    let more = await_otime id otimes in if otime == 0 then more else ok (some id)

-- The loop that asks semget again.
unfoldable pub await_semget : List Result → List ℕ → Run (Option ℕ)
await_semget [] otimes = ok none
await_semget (got id ∷ results) otimes = await_otime id otimes
await_semget (failed_with enoent ∷ results) otimes = await_semget results otimes
await_semget (failed_with eexist ∷ results) otimes = exit 1
await_semget (failed_with other_error ∷ results) otimes = exit 1

-- `MySemOpen`, on what its calls return: the identifier and the system's semaphores.
unfoldable pub sem_open :
    Result → Result → List Result → List ℕ → ℕ → Store → Run (Option ℕ × Store)
sem_open (failed_with e) semget again otimes sem_sz store = exit 1
sem_open (got key) (got id) again otimes sem_sz store =
    ok (some id, setval id sem_sz (setval id 0 store))
sem_open (got key) (failed_with eexist) again otimes sem_sz store =
    elim (await_semget again otimes) [ ok r ↦ ok (r, store) | exit n ↦ exit n | fault ↦ fault ]
sem_open (got key) (failed_with enoent) again otimes sem_sz store = exit 1
sem_open (got key) (failed_with other_error) again otimes sem_sz store = exit 1

-- `semget` with IPC_CREAT, where it returns an identifier: a set that is not there is made.
abbrev pub has_id : ℕ → Store → Bool
has_id id [] = false
has_id id ((i, v) ∷ store) = let rest = has_id id store in if i == id then true else rest

abbrev pub semget_creat : ℕ → Store → Store
semget_creat id store = if has_id id store then store else store ++ (id, 0) ∷ []

-- `MySemRemove`: semctl is called in the branch where semget has returned -1.
unfoldable pub sem_remove : Result → Result → Store → Run Store
sem_remove (failed_with enoent) semget store = ok store
sem_remove (failed_with eexist) semget store = exit 1
sem_remove (failed_with other_error) semget store = exit 1
sem_remove (got key) (got id) store = ok (semget_creat id store)
sem_remove (got key) (failed_with enoent) store = ok (rmid (failed_with enoent) store)
sem_remove (got key) (failed_with eexist) store = exit 1
sem_remove (got key) (failed_with other_error) store = exit 1

-- `SemaphoreRemove` without the freeing of its memory, on what the three pairs of calls return.
unfoldable pub semaphore_remove :
    Result × Result → Result × Result → Result × Result → Store → Run Store
semaphore_remove a b c store = elim (sem_remove a.0 a.1 store) [
  | ok store' ↦ elim (sem_remove b.0 b.1 store') [
    | ok store'' ↦ sem_remove c.0 c.1 store''
    | exit n ↦ exit n
    | fault ↦ fault
  ]
  | exit n ↦ exit n
  | fault ↦ fault
]

-- A run that leaves all semaphores as they are, and adds some perhaps, or ends the process with 1.
abbrev pub IsKept : Store → Run Store → Type 0
IsKept store r = ((added : Store) × (r ≡ ok (store ++ added))) ⊎ (r ≡ exit 1)

unchanged : (store : Store) → IsKept store (ok store)
unchanged store = inl ([], ap ok (sym (append-nil store)))

sem_remove-keeps :
    (ftok semget : Result) (store : Store) → IsKept store (sem_remove ftok semget store)
unfolding sem_remove
sem_remove-keeps (failed_with enoent) semget store = unchanged store
sem_remove-keeps (failed_with eexist) semget store = inr refl
sem_remove-keeps (failed_with other_error) semget store = inr refl
sem_remove-keeps (got key) (got id) store = elim (Bool-cases (has_id id store)) [
  | inl e ↦ rw e (unchanged store)
  | inr e ↦ inl ((id, 0) ∷ [], rw e refl)
]
sem_remove-keeps (got key) (failed_with enoent) store = unchanged store
sem_remove-keeps (got key) (failed_with eexist) store = inr refl
sem_remove-keeps (got key) (failed_with other_error) store = inr refl

-- Whatever ftok and semget return, `SemaphoreRemove` removes no semaphore: all that were there are
-- there with their values, before any that its own semget has made, or the process ends with 1.
pub semaphore_remove-keeps :
    (a b c : Result × Result) (store : Store)
    → ((added : Store) × (semaphore_remove a b c store ≡ ok (store ++ added)))
      ⊎ (semaphore_remove a b c store ≡ exit 1)
unfolding semaphore_remove
semaphore_remove-keeps a b c store = elim (sem_remove-keeps a.0 a.1 store) [
  | inr e ↦ inr (rw (e, semaphore_remove) refl)
  | inl (x, e) ↦ elim (sem_remove-keeps b.0 b.1 (store ++ x)) [
    | inr f ↦ inr (rw (e, semaphore_remove, f) refl)
    | inl (y, f) ↦ elim (sem_remove-keeps c.0 c.1 ((store ++ x) ++ y)) [
      | inr g ↦ inr (rw (e, semaphore_remove, f, g) refl)
      | inl (z, g) ↦ inl (
        x ++ (y ++ z),
        rw (e, semaphore_remove, f, g)
            (ap ok (append_assoc (store ++ x) y z ∙ append_assoc store x (y ++ z))),
      )
    ]
  ]
]
