-- ===== src/Fifo/Message.antt =====
-- task3/FIFO/include/fifo_server.h and fifo_client.h, which declare the same constants and the same
-- message, and the wrappers that src/fifo_server.c and src/fifo_client.c both define.
use sem.Common.{
  ℕ, suc, ◌+◌, ◌-◌, ◌*◌, ◌/◌, ◌%◌, Option, none, some, [], ◌∷◌, ◌++◌, Bytes, codes, take, drop,
  length, decimal, ltb, if◌then◌else◌, Run, ok, exit, fault,
}

abbrev pub msg_data_sz : ℕ
msg_data_sz = 128

abbrev pub prot_sz : ℕ
prot_sz = 1

abbrev pub max_read_sz : ℕ
max_read_sz = msg_data_sz - prot_sz

abbrev pub ready_msg : Bytes
ready_msg = codes "Ready"

abbrev pub channels_rel_path : Bytes
channels_rel_path = codes "../channels/"

-- `struct simple_message`
pub record SimpleMessage : Type 0 where
  pub sm_clientpid : ℕ
  pub sm_data : Bytes

-- The four bytes of a pid_t, the lowest first, and the number that four bytes stand for.
abbrev pub le32 : ℕ → Bytes
le32 n = n % 256 ∷ n / 256 % 256 ∷ n / 65536 % 256 ∷ n / 16777216 % 256 ∷ []

abbrev pub of_le32 : Bytes → ℕ
of_le32 (a ∷ b ∷ c ∷ d ∷ r) = a + 256 * b + 65536 * c + 16777216 * d
of_le32 r = 0

-- The bytes of a message as `write(fd, &msg, sizeof(msg))` sends them, and the message that they
-- make after `Read(fd, &msg, sizeof(msg))`.
abbrev pub encode : SimpleMessage → Bytes
encode m = le32 m.sm_clientpid ++ m.sm_data

abbrev pub decode : Bytes → SimpleMessage
decode b = record { sm_clientpid = of_le32 b; sm_data = drop 4 b }

-- `MakeFifoName`: snprintf keeps `name_max - 1` bytes.
unfoldable pub make_fifo_name : ℕ → ℕ → Bytes
make_fifo_name pid name_max =
    take (name_max - 1) (channels_rel_path ++ (codes "fifo" ++ decimal pid))

-- `Open`, on what open(2) returns; `none` is -1.
unfoldable pub open_path : Option ℕ → Run ℕ
open_path none = exit 1
open_path (some fd) = ok fd

-- `Read`, on the bytes that read(2) puts into the buffer; `none` is -1.
unfoldable pub read_bytes : Option Bytes → Run Bytes
read_bytes none = exit 1
read_bytes (some []) = exit 1
read_bytes (some (c ∷ b)) = ok (c ∷ b)

-- `strcpy(dst, s)` into an array that `dst` fills: the text, its NUL, and the old bytes behind.
abbrev pub strcpy : Bytes → Bytes → Run Bytes
strcpy dst s =
    if ltb (length s) (length dst) then ok (s ++ 0 ∷ drop (suc (length s)) dst) else fault
