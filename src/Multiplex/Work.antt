-- ===== src/Multiplex/Work.antt =====
-- task7/multiplex-io/server/src/s_main.c: the epoll thread and the work on a request. The thread pool
-- runs the jobs that it is given; a job is the word of the event that it is started with.
use sem.Common.{
  ℕ, zero, suc, ◌+◌, Option, none, some, List, [], ◌∷◌, Bytes, codes, same, tokens, if◌then◌else◌,
  Run, ok, exit, fault, ◌>>=◌,
}
use sem.Multiplex.System.{Reply, returned, eexist, failed, System}
use sem.Multiplex.Server.{as_string, s_scan_request}

-- The number of events that epoll_wait gives; -1 makes no round of the loop.
abbrev pub event_count : Reply → ℕ
event_count (returned n) = n
event_count eexist = 0
event_count failed = 0

-- The loop over the events: each job gets a new event from malloc, whose word is what the memory
-- holds; the event that was reported is not copied.
unfoldable pub add_jobs : (ℕ → ℕ) → ℕ → ℕ → List ℕ
add_jobs memory i zero = []
add_jobs memory i (suc n) = memory i ∷ add_jobs memory (i + 1) n

-- A round of `s_epoll`, on the answer of epoll_wait and the words that it reports.
unfoldable pub s_epoll_round : (ℕ → ℕ) → Reply → List ℕ → List ℕ
s_epoll_round memory answer reported = add_jobs memory 0 (event_count answer)

-- The start of `s_epoll`, on the answer of epoll_create1.
unfoldable pub s_epoll_create : Reply → Run ℕ
s_epoll_create (returned fd) = ok fd
s_epoll_create eexist = exit 1
s_epoll_create failed = exit 1

-- `s_processing_request`: what it writes, and to which descriptor; strdup of a NULL that strtok
-- returns is undefined.
unfoldable pub answer_words : ℕ → List Bytes → Run (Option (ℕ × Bytes))
answer_words word [] = fault
answer_words word (cmd ∷ []) = fault
answer_words word (cmd ∷ path ∷ more) =
    if same cmd (codes "GET") then ok (some (word, codes "Hello!")) else ok none

unfoldable pub s_processing_request : System → ℕ → Run (Option (ℕ × Bytes))
s_processing_request sys word = elim (s_scan_request sys word) [
  | none ↦ ok none
  | some request ↦ as_string request >>= λ text. answer_words word (tokens (codes " ") text)
]
