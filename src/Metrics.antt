-- ===== src/Metrics.antt =====
-- src/metrics.c: the process-wide registry and its mutators. Every mutator is a single relaxed
-- atomic update of one field (two for an accepted connection and for an observed request), so a
-- history of calls is a list, in the order in which the updates take effect.
pub mod Render
pub mod Label
pub mod Buckets
pub mod Tests
use concurrent_servers.Prelude.{
  ℕ, zero, suc, ◌+◌, ◌-◌, ◌*◌, ◌%◌, ◌^◌, ◌≤◌, ◌<◌, List, [], ◌∷◌, ◌++◌, Option, none, some, Bool,
  true, false, ◌&&◌, ◌||◌, ◌==◌, ltb, leb, if◌then◌else◌, length, take, get_elem?, set, replicate,
  splice, ℤ, pos, negsuc, c_string,
}
use concurrent_servers.Sys.{add_u64, sub_u64, ClockReading, clock_failed, timespec}
use concurrent_servers.Text.{codes}

abbrev pub bucket_count : ℕ
bucket_count = 10

abbrev pub model_max : ℕ
model_max = 32

-- `k_bucket_upper_ns`.
abbrev pub bucket_upper_ns : List ℕ
bucket_upper_ns =
    20_000 ∷ 50_000 ∷ 100_000 ∷ 250_000 ∷ 500_000 ∷ 1_000_000 ∷ 2_500_000 ∷ 5_000_000 ∷ 10_000_000
    ∷ 50_000_000 ∷ []

-- The signed fields hold the two's complement pattern of an int64_t, a number below 2 ^ 64.
pub record Registry : Type 0 where
  pub model : List ℕ
  pub accepted : ℕ
  pub refused : ℕ
  pub active : ℕ
  pub workers_busy : ℕ
  pub queue_depth : ℕ
  pub latency_count : List ℕ
  pub latency_sum_ns : ℕ

-- The static `g` before `metrics_init`: all bytes are zero.
abbrev pub zeroed : Registry
zeroed = record {
  model = replicate model_max 0;
  accepted = 0;
  refused = 0;
  active = 0;
  workers_busy = 0;
  queue_depth = 0;
  latency_count = replicate (bucket_count + 1) 0;
  latency_sum_ns = 0;
}

abbrev pub unknown_label : List ℕ
unknown_label = codes "unknown"

unfoldable pub model_label : Registry → List ℕ
model_label g = elim (get_elem? g.model 0) [
  | none ↦ unknown_label
  | some c ↦ if c == 0 then unknown_label else c_string g.model
]

abbrev pub is_label_char : ℕ → Bool
is_label_char c =
    (leb b'a' c && leb c b'z')
    || (leb b'A' c && leb c b'Z')
    || (leb b'0' c && leb c b'9')
    || c == b'_'
    || c == b'-'

-- The loop of `set_model`, at `model[n]`: how much of the label is taken.
pub label_length : List ℕ → ℕ → ℕ
label_length [] n = n
label_length (c ∷ cs) n =
    let rest = label_length cs (n + 1) in
    if ltb (n + 1) model_max then if is_label_char c then rest else 0 else n

-- What `set_model` stores once it knows how much of the label to take.
pub store_label : ℕ → List ℕ → Registry → Registry
store_label n label g =
    if n == 0
    then record g { model = splice g.model 0 (unknown_label ++ (0 ∷ [])) }
    else record g { model = set (splice g.model 0 (take n label)) n 0 }

-- `none` is the null pointer; a text comes without its NUL.
pub set_model : Option (List ℕ) → Registry → Registry
set_model none g = store_label 0 [] g
set_model (some label) g = store_label (label_length label 0) label g

unfoldable pub metrics_init : Option (List ℕ) → Registry → Registry
metrics_init label g = record (set_model label g) {
  accepted = 0;
  refused = 0;
  active = 0;
  workers_busy = 0;
  queue_depth = 0;
  latency_count = replicate (bucket_count + 1) 0;
  latency_sum_ns = 0;
}

pub metrics_now_ns : ClockReading → ℕ
metrics_now_ns clock_failed = 0
metrics_now_ns (timespec sec nsec) = add_u64 (sec * 1_000_000_000 % 2 ^ 64) nsec

unfoldable pub metrics_connection_accepted : Registry → Registry
metrics_connection_accepted g = record g {
  accepted = add_u64 g.accepted 1;
  active = add_u64 g.active 1;
}

unfoldable pub metrics_connection_refused : Registry → Registry
metrics_connection_refused g = record g { refused = add_u64 g.refused 1 }

unfoldable pub metrics_connection_closed : Registry → Registry
metrics_connection_closed g = record g { active = sub_u64 g.active 1 }

-- The loop of `bucket_index`, at index `i` with the bounds from there on.
pub bucket_from : List ℕ → ℕ → ℕ → ℕ
bucket_from [] d i = i
bucket_from (upper ∷ uppers) d i = if leb d upper then i else bucket_from uppers d (i + 1)

pub bucket_index : ℕ → ℕ
unfolding bucket_from
bucket_index d = bucket_from bucket_upper_ns d 0

-- `counts[i] += 1`, for an index within the array.
abbrev pub increment_at : List ℕ → ℕ → List ℕ
increment_at counts i = elim (get_elem? counts i) [
  | none ↦ counts
  | some c ↦ set counts i (add_u64 c 1)
]

unfoldable pub metrics_request_observed : ℕ → Registry → Registry
metrics_request_observed d g = record g {
  latency_count = increment_at g.latency_count (bucket_index d);
  latency_sum_ns = add_u64 g.latency_sum_ns d;
}

unfoldable pub metrics_queue_depth_set : ℕ → Registry → Registry
metrics_queue_depth_set depth g = record g { queue_depth = depth }

-- `delta` as the pattern of an int64_t.
unfoldable pub metrics_workers_busy_add : ℤ → Registry → Registry
metrics_workers_busy_add (pos n) g = record g { workers_busy = add_u64 g.workers_busy n }
metrics_workers_busy_add (negsuc n) g = record g { workers_busy = sub_u64 g.workers_busy (n + 1) }
