-- ===== src/Multiplex/System.antt =====
-- What the two programs of task7/multiplex-io ask of the system: its answers are a parameter.
use sem.Common.{ℕ, ◌-◌, ◌^◌, ◌%◌, Bool, Option, none, some, List, Bytes}

-- The answer of a call that returns a number, or -1 with errno EEXIST or with another.
pub data Reply : Type 0 where
  returned : ℕ → Reply
  eexist failed : Reply

-- The flags with which a fifo is opened.
pub data Mode : Type 0 where
  rdonly wronly : Mode

-- An entry of an epoll set: the descriptor watched, and the word of its event's data.
pub record Watch : Type 0 where
  pub fd : ℕ
  pub word : ℕ

-- The calls, by the names they are made on; `epoll_add` tells whether EPOLL_CTL_ADD succeeds.
pub record System : Type 0 where
  pub mkfifo : Bytes → Reply
  pub opens : Bytes → Mode → Reply
  pub read : ℕ → Option Bytes
  pub writes : ℕ → Bool
  pub closes : ℕ → Bool
  pub epoll_add : List Watch → ℕ → Bool

-- An int as the word of `data.u32`, which shares its memory with `data.fd`; `none` is -1.
abbrev pub word_of : Option ℕ → ℕ
word_of none = 2 ^ 32 - 1
word_of (some fd) = fd % 2 ^ 32
