-- ===== src/Metrics/Buckets.antt =====
-- What the latency histogram counts.
use concurrent_servers.Prelude.{
  ℕ, zero, suc, ◌+◌, ◌≤◌, ◌<◌, ◌^◌, ◌≡◌, refl, sym, ap, ◌∙◌, subst, none, some, List, [], ◌∷◌,
  arith, leb, ltb, if◌then◌else◌, length, take, get_elem?, set, All, get_elem?-some, length-set,
  take_all,
}
use concurrent_servers.Sys.{add_u64}
use concurrent_servers.Metrics.{
  Registry, bucket_count, bucket_upper_ns, bucket_from, bucket_index, increment_at,
  metrics_request_observed,
}

abbrev pub sum : List ℕ → ℕ
sum [] = 0
sum (x ∷ xs) = x + sum xs

-- How many durations are at most `upper`.
abbrev pub count_le : ℕ → List ℕ → ℕ
count_le upper [] = 0
count_le upper (d ∷ ds) = (if leb d upper then 1 else 0) + count_le upper ds

abbrev Ascending : List ℕ → Type 0
Ascending [] = Unit
Ascending (u ∷ us) = All (λ v. u ≤ v) us × Ascending us

bucket_upper_ns-Ascending : Ascending bucket_upper_ns
bucket_upper_ns-Ascending = omega arith

bucket_from-bounds :
    (us : List ℕ) (d j : ℕ) → (j ≤ bucket_from us d j) × (bucket_from us d j ≤ j + length us)
unfolding bucket_from
bucket_from-bounds [] d j = omega arith
bucket_from-bounds (u ∷ us) d j = ground (arith, bucket_from-bounds us d (j + 1))

All-get_elem? :
    (P : ℕ → Type 0) (xs : List ℕ) (i : ℕ) {x : ℕ} → All P xs → get_elem? xs i ≡ some x → P x
All-get_elem? P [] i h e = cc
All-get_elem? P (y ∷ xs) zero h e = subst P (ground arith) h.0
All-get_elem? P (y ∷ xs) (suc i) h e = All-get_elem? P xs i h.1 e

bucket_from-leb :
    (us : List ℕ) (d j i : ℕ) {u : ℕ}
    → Ascending us
    → get_elem? us i ≡ some u
    → leb (bucket_from us d j) (j + i) ≡ leb d u
unfolding bucket_from
bucket_from-leb [] d j i h e = cc
bucket_from-leb (v ∷ us) d j zero h e = ground (arith, bucket_from-bounds us d (j + 1))
bucket_from-leb (v ∷ us) d j (suc i) {u} h e =
    ground (arith, bucket_from-leb us d (j + 1) i h.1 e, All-get_elem? (λ w. v ≤ w) us i h.0 e)

-- The bucket of a duration is at most `i` exactly when the duration is at most the i-th bound.
pub bucket_index-leb :
    (d i : ℕ) {u : ℕ} → get_elem? bucket_upper_ns i ≡ some u → leb (bucket_index d) i ≡ leb d u
unfolding bucket_index
bucket_index-leb d i e =
    let h = bucket_from-leb bucket_upper_ns d 0 i bucket_upper_ns-Ascending e in ground (arith, h)

pub bucket_index-le : (d : ℕ) → bucket_index d ≤ bucket_count
unfolding bucket_index
bucket_index-le d = (bucket_from-bounds bucket_upper_ns d 0).1

sum-take-set :
    (xs : List ℕ) (i k : ℕ) {c : ℕ}
    → get_elem? xs i ≡ some c
    → sum (take k (set xs i (c + 1))) ≡ sum (take k xs) + (if ltb i k then 1 else 0)
sum-take-set [] i k e = cc
sum-take-set (x ∷ xs) i zero e = ground arith
sum-take-set (x ∷ xs) zero (suc k) e = ground arith
sum-take-set (x ∷ xs) (suc i) (suc k) e = ground (arith, sum-take-set xs i k e)

get_elem?-le_sum : (xs : List ℕ) (i : ℕ) {c : ℕ} → get_elem? xs i ≡ some c → c ≤ sum xs
get_elem?-le_sum [] i e = cc
get_elem?-le_sum (x ∷ xs) zero e = ground arith
get_elem?-le_sum (x ∷ xs) (suc i) e = omega (arith, get_elem?-le_sum xs i e)

increment_at-eq_set :
    (xs : List ℕ) (i : ℕ) {c : ℕ}
    → get_elem? xs i ≡ some c
    → c + 1 < 2 ^ 64
    → increment_at xs i ≡ set xs i (c + 1)
increment_at-eq_set xs i {c} e small =
    let no_wrap : add_u64 c 1 ≡ c + 1 = omega arith in rw (e, increment_at) (rw no_wrap)

-- An increment that does not wrap, seen through every prefix sum.
sum-take-increment_at :
    (xs : List ℕ) (i k : ℕ)
    → i < length xs
    → sum xs + 1 < 2 ^ 64
    → sum (take k (increment_at xs i)) ≡ sum (take k xs) + (if ltb i k then 1 else 0)
sum-take-increment_at xs i k h small =
    let (c, e) = get_elem?-some xs i h in
    rw (increment_at-eq_set xs i e (omega (arith, get_elem?-le_sum xs i e))) (sum-take-set xs i k e)

length-increment_at : (xs : List ℕ) (i : ℕ) → length (increment_at xs i) ≡ length xs
length-increment_at xs i =
    elim (get_elem? xs i)
      as (λ o. length (elim o [ none ↦ xs | some c ↦ set xs i (add_u64 c 1) ]) ≡ length xs) [
        | none ↦ refl
        | some c ↦ length-set xs i (add_u64 c 1)
      ]

-- The calls of `metrics_request_observed`, in order.
unfoldable pub observe_all : List ℕ → Registry → Registry
observe_all [] g = g
observe_all (d ∷ ds) g = observe_all ds (metrics_request_observed d g)

-- What has been counted from `g` to `g'` by the observations `ds`.
pub record Counted (g : Registry) (ds : List ℕ) (g' : Registry) : Type 0 where
  pub size : length g'.latency_count ≡ bucket_count + 1
  pub total : sum g'.latency_count ≡ sum g.latency_count + length ds
  pub up_to :
      (i : ℕ) {upper : ℕ}
      → get_elem? bucket_upper_ns i ≡ some upper
      → sum (take (i + 1) g'.latency_count) ≡ sum (take (i + 1) g.latency_count) + count_le upper ds

observe-Counted :
    (d : ℕ) (g : Registry)
    → length g.latency_count ≡ bucket_count + 1
    → sum g.latency_count + 1 < 2 ^ 64
    → Counted g (d ∷ []) (metrics_request_observed d g)
unfolding metrics_request_observed
observe-Counted d g h small = record {
  size = length-increment_at g.latency_count (bucket_index d) ∙ h;
  total = counted_total;
  up_to = λ i {upper} e. counted_up_to i e;
}
  where
    within : bucket_index d < length g.latency_count
    within = omega (arith, bucket_index-le d)

    after : List ℕ
    after = increment_at g.latency_count (bucket_index d)

    counted_total : sum after ≡ sum g.latency_count + 1
    counted_total =
        ap sum (
          sym (
            take_all 11 after
              (omega (arith, length-increment_at g.latency_count (bucket_index d)))))
        ∙ sum-take-increment_at g.latency_count (bucket_index d) 11 within small
        ∙ ground (arith, ap sum (take_all 11 g.latency_count (omega arith)), bucket_index-le d)

    counted_up_to :
        (i : ℕ) {upper : ℕ}
        → get_elem? bucket_upper_ns i ≡ some upper
        → sum (take (i + 1) after)
          ≡ sum (take (i + 1) g.latency_count) + ((if leb d upper then 1 else 0) + 0)
    counted_up_to i {upper} e =
        sum-take-increment_at g.latency_count (bucket_index d) (i + 1) within small
        ∙ ground (arith, bucket_index-leb d i e)

Counted-trans :
    {g g' g'' : Registry} {d : ℕ} {ds : List ℕ}
    → Counted g (d ∷ []) g'
    → Counted g' ds g''
    → Counted g (d ∷ ds) g''
Counted-trans one more = record {
  size = more.size;
  total = omega (arith, one.total, more.total);
  up_to = λ i {upper} e. omega (arith, one.up_to i e, more.up_to i e);
}

-- Observing the durations `ds` fills the histogram so that, for every bound of the table, the
-- buckets up to it have grown by the number of durations at most that bound, and all buckets
-- together by the number of durations. The array has its 11 entries, and the counters do not
-- overflow 64 bits.
pub observe_all-Counted :
    (ds : List ℕ) (g : Registry)
    → length g.latency_count ≡ bucket_count + 1
    → sum g.latency_count + length ds < 2 ^ 64
    → Counted g ds (observe_all ds g)
unfolding observe_all
observe_all-Counted [] g h small = record {
  size = h;
  total = omega arith;
  up_to = λ i {upper} e. omega arith;
}
observe_all-Counted (d ∷ ds) g h small =
    let one = observe-Counted d g h (omega arith) in
    Counted-trans one (observe_all-Counted ds (metrics_request_observed d g) one.size (omega arith))
