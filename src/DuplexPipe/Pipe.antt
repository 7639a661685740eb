-- ===== src/DuplexPipe/Pipe.antt =====
-- task2/duplex-pipe/src/dp_pipe.c and src/dp_string.c. The methods of both objects are fixed by
-- their constructors, so they are called by name here.
use sem.Common.{
  ℕ, zero, suc, ◌+◌, ◌-◌, ◌*◌, ◌/◌, ◌%◌, Bool, true, false, List, [], ◌∷◌, ◌++◌, Bytes, take, drop,
  set, get_or, length, overlay, replicate, cstr, ◌==◌, ltb, if◌then◌else◌, Run, ok, exit, fault,
  ensure, same, ◌>>=◌, ◌>>◌,
}

abbrev pub pcg_sz : ℕ
pcg_sz = 256

-- The macro has no parentheses; `BUF_SZ - 3` still reads as 254 * 256.
abbrev pub buf_sz : ℕ
buf_sz = 254 * 256 + 3

-- `String`, whose buffer calloc fills with zeros; `str_length` is strlen.
pub record String : Type 0 where
  pub bytes : Bytes

unfoldable pub ctor_string : ℕ → String
ctor_string data_sz = record { bytes = replicate data_sz 0 }

unfoldable pub str_length : String → ℕ
str_length s = length (cstr s.bytes)

-- `Pipe`: its buffer and the paths that it reads from and writes to.
pub record Pipe : Type 0 where
  pub buf : String
  pub fp_r : Bytes
  pub fp_w : Bytes

-- The definition takes the path to read from first.
unfoldable pub ctor_pipe : Bytes → Bytes → Pipe
unfolding ctor_string
ctor_pipe fp_r fp_w = record { buf = ctor_string buf_sz; fp_r = fp_r; fp_w = fp_w }

unfoldable pub p_size : Pipe → ℕ
unfolding str_length
p_size self = str_length self.buf

-- `p_pipe`, on what pipe(2) returns.
unfoldable pub p_pipe : Bool → Run (Unit {0})
p_pipe true = ok tt
p_pipe false = exit 1

-- The third header byte: the number of bytes in the last package and one, or one for none.
abbrev pub last_count : ℕ → ℕ
last_count last_sym = if last_sym % pcg_sz == 0 then 1 else (last_sym % pcg_sz + 1) % 256

-- The buffer in a round of `p_snd` whose fread has given `block`, with the header in front.
abbrev pub fill : ℕ → Bytes → Bytes → Bytes
fill i block buffer =
    let last_sym = length block in
    let head = set (set (set buffer 0 (i % 256)) 1 b'0') 2 b'0' in
    let read = overlay 3 block head in
    set (set read 1 ((last_sym / pcg_sz + 1) % 256)) 2 (last_count last_sym)

-- The loop of `p_snd` with its variable `i`, over the rest of the file; the result lists the writes.
unfoldable pub snd_loop : ℕ → ℕ → Bytes → Bytes → List Bytes
snd_loop zero i rest buffer = []
snd_loop (suc fuel) i rest buffer =
    let block = take (buf_sz - 3) rest in
    let filled = fill i block buffer in
    let packet = take (length block + 3) filled in
    let more = snd_loop fuel ((i + 1) % 128) (drop (buf_sz - 3) rest) filled in
    if length block == buf_sz - 3 then packet ∷ more else packet ∷ []

-- `p_snd` on the contents of its file: a round for each byte is more than enough.
unfoldable pub p_snd : Pipe → Bytes → List Bytes
p_snd self file = snd_loop (suc (length file)) 1 file self.buf.bytes

-- What `p_rcv` keeps through its loop: `i`, the buffer, and the bytes written to the file.
pub record Receiver : Type 0 where
  pub i : ℕ
  pub buffer : Bytes
  pub out : Bytes

-- The number of bytes that a header announces; `(u_char)(c - 1)` wraps around.
abbrev pub announced : Bytes → ℕ
announced buffer = (get_or buffer 1 0 + 255) % 256 * pcg_sz + (get_or buffer 2 0 + 255) % 256

-- A round of `p_rcv`, on the bytes that read(2) gives. `(int)data[0]` is negative from 128 on, and
-- `i` stays below 128. A length beyond the buffer is an overrun.
unfoldable pub rcv_round : Bytes → Receiver → Run Receiver
rcv_round got r =
    let filled = overlay 0 got r.buffer in
    let len = announced filled in
    if get_or filled 0 0 == r.i
    then (if ltb (length (drop 3 filled)) len
        then fault
        else ok (record {
          i = (r.i + 1) % 128;
          buffer = filled;
          out = r.out ++ take len (drop 3 filled);
        }))
    else ok (record r { buffer = filled })

unfoldable pub rcv_loop : List Bytes → Receiver → Run Receiver
rcv_loop [] r = ok r
rcv_loop (got ∷ reads) r = do r' ← rcv_round got r; rcv_loop reads r'

-- `p_rcv`: what its reads give, until the end of the pipe, and the file that it leaves.
unfoldable pub p_rcv : Pipe → List Bytes → Run Bytes
p_rcv self reads = do
  r ← rcv_loop reads (record { i = 1; buffer = self.buf.bytes; out = [] })
  ok r.out

-- The files by their paths, and the file of one path replaced. Each can be opened, and no two paths
-- name one file.
abbrev pub Files : Type 0
Files = Bytes → Bytes

abbrev pub store : Files → Bytes → Bytes → Files
store files path text other = if same path other then text else files other

-- `send` and `receive` of one pipe between two files, the sender's writes being the receiver's reads.
unfoldable pub carry : Pipe → Files → Run Files
carry self files = do
  out ← p_rcv self (p_snd self (files self.fp_r))
  ok (store files self.fp_w out)

-- `main`, on what pipe(2) and fork(2) return: the parent sends and the child receives over the first
-- pipe, then the child sends and the parent receives over the second. Each read gives one packet,
-- as it was written.
unfoldable pub main_program : ℕ → Bytes → Bytes → Bool → Bool → Bool → Files → Run Files
unfolding ctor_pipe p_pipe
main_program argc argv1 argv2 pipe1 pipe2 forks files = do
  ensure (argc == 3) 1
  let pipe_p_to_c = ctor_pipe argv1 argv2
  let pipe_c_to_p = ctor_pipe argv2 argv1
  p_pipe pipe1
  p_pipe pipe2
  ensure forks 1
  files' ← carry pipe_p_to_c files
  carry pipe_c_to_p files'
