-- ===== src/Metrics/Render/Body.antt =====
-- The exposition body as a list of lines, independent of any buffer.
use concurrent_servers.Prelude.{
  ℕ, zero, suc, ◌+◌, ◌%◌, ◌^◌, ◌≡◌, refl, sym, ap, ◌∙◌, List, [], ◌∷◌, ◌++◌, arith, length, take,
}
use native.Mathlib.Numerals.{add-one}
use concurrent_servers.Sys.{add_u64}
use concurrent_servers.Text.{codes, decimal, decimal_signed}
use concurrent_servers.Metrics.{Registry, bucket_count, model_label}
use concurrent_servers.Metrics.Buckets.{sum}
use concurrent_servers.Metrics.Render.{
  Out, appendf, help_line, type_line, value_line, bucket_line, render_counter, render_gauge,
  render_buckets, finish_latency, render_latency, render_all, bucket_le, count_at, latency_name,
  latency_help, seconds_text, signed64,
}

-- HELP, TYPE and the one sample of a series.
abbrev pub series : List ℕ → List ℕ → List ℕ → List ℕ → List ℕ → List (List ℕ)
series name help kind label value =
    help_line name help ∷ type_line name kind ∷ value_line name label value ∷ []

-- A bucket line shows how many observations lie in all buckets up to its own.
abbrev pub up_to : List ℕ → ℕ → ℕ
up_to counts i = sum (take (i + 1) counts) % 2 ^ 64

abbrev pub bucket_lines : List (List ℕ) → ℕ → List ℕ → List ℕ → List (List ℕ)
bucket_lines [] i label counts = []
bucket_lines (upper ∷ uppers) i label counts =
    bucket_line label upper (decimal (up_to counts i)) ∷ bucket_lines uppers (i + 1) label counts

abbrev pub closing_lines : Registry → List ℕ → List (List ℕ)
closing_lines g label =
    bucket_line label (codes "+Inf") (decimal (up_to g.latency_count bucket_count))
    ∷ value_line (codes "server_request_duration_seconds_sum") label (seconds_text g.latency_sum_ns)
    ∷ value_line (codes "server_request_duration_seconds_count") label
        (decimal (up_to g.latency_count bucket_count))
    ∷ []

abbrev pub latency_lines : Registry → List ℕ → List (List ℕ)
latency_lines g label =
    help_line latency_name latency_help
    ∷ type_line latency_name (codes "histogram")
    ∷ (bucket_lines bucket_le 0 label g.latency_count ++ closing_lines g label)

unfoldable pub lines : Registry → List (List ℕ)
lines g =
    let label = model_label g in
    series (codes "server_connections_accepted_total")
      (codes "Connections accepted since process start.") (codes "counter") label
      (decimal g.accepted)
    ++ (series (codes "server_connections_refused_total")
          (codes "Connections refused because the server had no capacity.") (codes "counter") label
          (decimal g.refused)
        ++ (series (codes "server_connections_active") (codes "Connections currently open.")
              (codes "gauge") label (decimal_signed (signed64 g.active))
            ++ (series (codes "server_pool_queue_depth")
                  (codes "Work items waiting in the thread pool queue.") (codes "gauge") label
                  (decimal_signed (signed64 g.queue_depth))
                ++ (series (codes "server_pool_workers_busy")
                      (codes "Worker threads serving a request.") (codes "gauge") label
                      (decimal_signed (signed64 g.workers_busy))
                    ++ latency_lines g label))))

abbrev pub join : List (List ℕ) → List ℕ
join [] = []
join (line ∷ rest) = line ++ join rest

-- The whole body.
unfoldable pub body : Registry → List ℕ
body g = join (lines g)

abbrev pub append_all : List (List ℕ) → Out → Out
append_all [] o = o
append_all (line ∷ rest) o = append_all rest (appendf line o)

append_all-append :
    (xs ys : List (List ℕ)) (o : Out) → append_all (xs ++ ys) o ≡ append_all ys (append_all xs o)
append_all-append [] ys o = refl
append_all-append (x ∷ xs) ys o = append_all-append xs ys (appendf x o)

sum-take-suc :
    (counts : List ℕ) (i : ℕ) → sum (take (suc i) counts) ≡ sum (take i counts) + count_at counts i
sum-take-suc [] zero = refl
sum-take-suc [] (suc i) = refl
sum-take-suc (c ∷ counts) zero = omega arith
sum-take-suc (c ∷ counts) (suc i) = omega (arith, sum-take-suc counts i)

-- One more bucket on top of the sum so far, both modulo 2 ^ 64.
add_u64-up_to :
    (counts : List ℕ) (i : ℕ)
    → add_u64 (sum (take i counts) % 2 ^ 64) (count_at counts i) ≡ up_to counts i
add_u64-up_to counts i = rw add-one (omega (arith, sum-take-suc counts i))

render_buckets_lem :
    (uppers : List (List ℕ)) (i j : ℕ) (g : Registry) (o : Out)
    → i + length uppers ≡ j
    → render_buckets uppers i (sum (take i g.latency_count) % 2 ^ 64) g o ≡ (
      sum (take j g.latency_count) % 2 ^ 64,
      append_all (bucket_lines uppers i (model_label g) g.latency_count) o,
    )
unfolding render_buckets
render_buckets_lem [] i j g o e = ap (λ k. (sum (take k g.latency_count) % 2 ^ 64, o)) (omega arith)
render_buckets_lem (upper ∷ uppers) i j g o e =
    rw (add_u64-up_to g.latency_count i) (render_buckets_lem uppers (i + 1) j g _ (omega arith))

finish_latency_lem :
    (g : Registry) (o : Out)
    → finish_latency g (sum (take bucket_count g.latency_count) % 2 ^ 64, o)
      ≡ append_all (closing_lines g (model_label g)) o
unfolding finish_latency
finish_latency_lem g o = rw (add_u64-up_to g.latency_count bucket_count)

render_latency-lines :
    (g : Registry) (o : Out) → render_latency g o ≡ append_all (latency_lines g (model_label g)) o
unfolding render_latency
render_latency-lines g o =
    let head_lines =
      help_line latency_name latency_help ∷ type_line latency_name (codes "histogram") ∷ [] in
    let o' = append_all head_lines o in
    let buckets = bucket_lines bucket_le 0 (model_label g) g.latency_count in
    ap (finish_latency g) (render_buckets_lem bucket_le 0 bucket_count g o' refl)
    ∙ finish_latency_lem g (append_all buckets o')
    ∙ sym (append_all-append buckets (closing_lines g (model_label g)) o')

-- The calls of `metrics_render` append the lines of the body in order.
pub render_all-lines : (g : Registry) (o : Out) → render_all g o ≡ append_all (lines g) o
unfolding render_all lines render_counter render_gauge
render_all-lines g o = render_latency-lines g _
