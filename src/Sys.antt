-- ===== src/Sys.antt =====
-- What the sources take from the C library and the kernel: the errno values that they test, and
-- the results of recv and send. The results are arguments of the model, so that a statement over
-- all of them is a statement over every behaviour of the kernel.
pub mod Numbers
pub mod Streams
use concurrent_servers.Prelude.{ℕ, ◌+◌, ◌-◌, ◌%◌, ◌^◌, List, Bool, true, false}

-- `other` is any value that no test of the sources names.
pub data Errno : Type 0 where
  eintr eagain ewouldblock econnreset epipe etimedout econnaborted : Errno
  emfile enfile enobufs enomem : Errno
  other : ℕ → Errno

-- A recv that returns 0 is `received []`.
pub data RecvResult : Type 0 where
  received : List ℕ → RecvResult
  recv_failed : Errno → RecvResult

pub data SendResult : Type 0 where
  wrote : ℕ → SendResult
  send_failed : Errno → SendResult

-- What clock_gettime answers: a failure, or seconds and nanoseconds.
pub data ClockReading : Type 0 where
  clock_failed : ClockReading
  timespec : ℕ → ℕ → ClockReading

-- size_t and uint64_t addition and subtraction, uint8_t addition.
abbrev pub add_u64 : ℕ → ℕ → ℕ
add_u64 a b = (a + b) % 2 ^ 64

abbrev pub sub_u64 : ℕ → ℕ → ℕ
sub_u64 a b = (a + 2 ^ 64 - b) % 2 ^ 64

abbrev pub add_u8 : ℕ → ℕ → ℕ
add_u8 a b = (a + b) % 256

abbrev pub is_eintr : Errno → Bool
is_eintr eintr = true
is_eintr _ = false

-- EAGAIN and EWOULDBLOCK.
abbrev pub is_again : Errno → Bool
is_again eagain = true
is_again ewouldblock = true
is_again _ = false
