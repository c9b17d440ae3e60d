-- ===== src/Uring/UserData.antt =====
-- src/uring_server.c: `pack` and what undoes it.
use concurrent_servers.Prelude.{
  ℕ, ◌+◌, ◌-◌, ◌*◌, ◌/◌, ◌%◌, ◌^◌, ◌≤◌, ◌<◌, ◌≡◌, refl, ap, ◌∙◌, false, Option, none, some, arith,
  ◌==◌, ltb, lt→ltb, if◌then◌else◌, ℤ, pos, negsuc,
}

pub data UringOp : Type 0 where
  op_accept op_recv op_send : UringOp

abbrev pub op_code : UringOp → ℕ
op_code op_accept = 1
op_code op_recv = 2
op_code op_send = 3

-- The conversions between int and uint32_t.
abbrev pub to_u32 : ℤ → ℕ
to_u32 (pos n) = n % 2 ^ 32
to_u32 (negsuc n) = 2 ^ 32 - 1 - n % 2 ^ 32

abbrev pub to_int : ℕ → ℤ
to_int n = if ltb n (2 ^ 31) then pos n else negsuc (2 ^ 32 - 1 - n)

-- The two halves have no bit in common, so that `|` is a sum.
pub pack : UringOp → ℤ → ℕ
pack op fd = op_code op * 2 ^ 32 + to_u32 fd

op_of : ℕ → Option UringOp
op_of n =
    if n == 1
    then some op_accept
    else if n == 2
    then some op_recv
    else if n == 3
    then some op_send
    else none

pub unpack_op : ℕ → Option UringOp
unfolding op_of
unpack_op user_data = op_of (user_data / 2 ^ 32)

pub unpack_fd : ℕ → ℤ
unpack_fd user_data = to_int (user_data % 2 ^ 32)

abbrev pub IsInt : ℤ → Type 0
IsInt (pos n) = n < 2 ^ 31
IsInt (negsuc n) = n < 2 ^ 31

to_u32_lt : (fd : ℤ) → IsInt fd → to_u32 fd < 2 ^ 32
to_u32_lt (pos n) h = omega (arith, h)
to_u32_lt (negsuc n) h = omega (arith, h)

to_int_small : (n : ℕ) → n < 2 ^ 31 → to_int n ≡ pos n
to_int_small n h = rw (lt→ltb n (2 ^ 31) h) refl

to_int_large : (n : ℕ) → 2 ^ 31 ≤ n → to_int n ≡ negsuc (2 ^ 32 - 1 - n)
to_int_large n h = rw (below n h) refl
  where
    below : (n : ℕ) → 2 ^ 31 ≤ n → ltb n (2 ^ 31) ≡ false
    below n h = ground (arith, h)

to_int-to_u32 : (fd : ℤ) → IsInt fd → to_int (to_u32 fd) ≡ fd
to_int-to_u32 (pos n) h = ap to_int {x = n % 2 ^ 32} {y = n} (omega (arith, h)) ∙ to_int_small n h
to_int-to_u32 (negsuc n) h =
    to_int_large (2 ^ 32 - 1 - n % 2 ^ 32) (omega (arith, h))
    ∙ ap negsuc {x = 2 ^ 32 - 1 - (2 ^ 32 - 1 - n % 2 ^ 32)} {y = n} (omega (arith, h))

op_of-op_code : (op : UringOp) → op_of (op_code op) ≡ some op
unfolding op_of
op_of-op_code op_accept = refl
op_of-op_code op_recv = refl
op_of-op_code op_send = refl

-- The operation and the descriptor of a submission come back from its user data, for any int.
pub unpack_op-pack :
    (op : UringOp) (fd : ℤ)
    → IsInt fd
    → (unpack_op (pack op fd) ≡ some op) × (unpack_fd (pack op fd) ≡ fd)
unfolding unpack_op unpack_fd pack
unpack_op-pack op fd h = (
  ap op_of {x = (op_code op * 2 ^ 32 + to_u32 fd) / 2 ^ 32} {y = op_code op}
        (omega (arith, to_u32_lt fd h))
      ∙ op_of-op_code op,
  ap to_int {x = (op_code op * 2 ^ 32 + to_u32 fd) % 2 ^ 32} {y = to_u32 fd}
        (omega (arith, to_u32_lt fd h))
      ∙ to_int-to_u32 fd h,
)

pub pack-fd : (op : UringOp) (fd : ℕ) → fd < 2 ^ 31 → pack op (pos fd) % 2 ^ 32 ≡ fd
unfolding pack
pack-fd op fd h = omega (arith, h)
