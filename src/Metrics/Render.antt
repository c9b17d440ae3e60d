-- ===== src/Metrics/Render.antt =====
-- src/metrics.c, the rendering: `appendf`, the `render_` functions and `metrics_render`.
pub mod Body
pub mod Size
pub mod Buffer
use concurrent_servers.Prelude.{
  ℕ, zero, suc, ◌+◌, ◌-◌, ◌/◌, ◌%◌, ◌^◌, List, [], ◌∷◌, ◌++◌, Option, none, some, ltb, leb, ◌==◌,
  ◌&&◌, if◌then◌else◌, length, take, get_elem?, set, splice, ℤ, pos, negsuc,
}
use Prim.Native.String.{String}
use concurrent_servers.Sys.{add_u64}
use concurrent_servers.Text.{codes, decimal, decimal_signed, decimal_padded}
use concurrent_servers.Metrics.{Registry, bucket_count, model_label}

-- `out`, `cap` and `*len` of the render functions. `buf` is the array behind `out`.
pub record Out : Type 0 where
  pub buf : List ℕ
  pub cap : ℕ
  pub len : ℕ

-- vsnprintf with `room` bytes at index `at`: the text cut to room - 1 bytes, then a NUL.
abbrev pub vsnprintf : List ℕ → ℕ → ℕ → List ℕ → List ℕ
vsnprintf buf at room text =
    if room == 0 then buf else splice buf at (take (room - 1) text ++ (0 ∷ []))

-- `text` is what the format and its arguments expand to; it is shorter than INT_MAX.
pub appendf : List ℕ → Out → Out
appendf text o =
    let dst_buf = if ltb o.len o.cap then vsnprintf o.buf o.len (o.cap - o.len) text else o.buf in
    if ltb 0 (length text)
    then record o { buf = dst_buf; len = add_u64 o.len (length text) }
    else record o { buf = dst_buf }

-- The texts of the format strings.
pub help_line : List ℕ → List ℕ → List ℕ
help_line name help = codes "# HELP " ++ (name ++ (codes " " ++ (help ++ codes "\n")))

pub type_line : List ℕ → List ℕ → List ℕ
type_line name kind = codes "# TYPE " ++ (name ++ (codes " " ++ (kind ++ codes "\n")))

pub value_line : List ℕ → List ℕ → List ℕ → List ℕ
value_line name label value =
    name ++ (codes "{model=\"" ++ (label ++ (codes "\"} " ++ (value ++ codes "\n"))))

pub bucket_line : List ℕ → List ℕ → List ℕ → List ℕ
bucket_line label upper value =
    codes "server_request_duration_seconds_bucket{model=\""
    ++ (label ++ (codes "\",le=\"" ++ (upper ++ (codes "\"} " ++ (value ++ codes "\n")))))

pub render_counter : List ℕ → List ℕ → ℕ → Registry → Out → Out
render_counter name help value g o =
    appendf (value_line name (model_label g) (decimal value))
      (appendf (type_line name (codes "counter")) (appendf (help_line name help) o))

pub render_gauge : List ℕ → List ℕ → ℤ → Registry → Out → Out
render_gauge name help value g o =
    appendf (value_line name (model_label g) (decimal_signed value))
      (appendf (type_line name (codes "gauge")) (appendf (help_line name help) o))

-- `k_bucket_le`.
abbrev pub bucket_le : List (List ℕ)
bucket_le =
    codes "0.00002"
    ∷ codes "0.00005"
    ∷ codes "0.0001"
    ∷ codes "0.00025"
    ∷ codes "0.0005"
    ∷ codes "0.001"
    ∷ codes "0.0025"
    ∷ codes "0.005"
    ∷ codes "0.01"
    ∷ codes "0.05"
    ∷ []

-- `latency_count[i]`, for an index within the array.
abbrev pub count_at : List ℕ → ℕ → ℕ
count_at counts i = elim (get_elem? counts i) [ none ↦ 0 | some c ↦ c ]

-- The loop over the buckets, at index `i` with the labels from there on. It leaves `cumulative`.
pub render_buckets : List (List ℕ) → ℕ → ℕ → Registry → Out → ℕ × Out
render_buckets [] i cumulative g o = (cumulative, o)
render_buckets (upper ∷ uppers) i cumulative g o =
    let total = add_u64 cumulative (count_at g.latency_count i) in
    render_buckets uppers (i + 1) total g
      (appendf (bucket_line (model_label g) upper (decimal total)) o)

abbrev pub latency_name : List ℕ
latency_name = codes "server_request_duration_seconds"

abbrev pub latency_help : List ℕ
latency_help = codes "Request service time in seconds."

abbrev pub seconds_text : ℕ → List ℕ
seconds_text ns = decimal (ns / 1_000_000_000) ++ (codes "." ++ decimal_padded (ns % 1_000_000_000))

-- What `render_latency` appends behind the loop, from the `cumulative` that the loop leaves.
pub finish_latency : Registry → ℕ × Out → Out
finish_latency g (cumulative, o) =
    let total = add_u64 cumulative (count_at g.latency_count bucket_count) in
    appendf
      (value_line (codes "server_request_duration_seconds_count") (model_label g) (decimal total))
      (appendf
        (value_line (codes "server_request_duration_seconds_sum") (model_label g)
          (seconds_text g.latency_sum_ns))
        (appendf (bucket_line (model_label g) (codes "+Inf") (decimal total)) o))

pub render_latency : Registry → Out → Out
render_latency g o = finish_latency g (
    render_buckets bucket_le 0 0 g (
      appendf (type_line latency_name (codes "histogram"))
        (appendf (help_line latency_name latency_help) o)))

-- An int64_t from its pattern.
abbrev pub signed64 : ℕ → ℤ
signed64 w = if ltb w (2 ^ 63) then pos w else negsuc (2 ^ 64 - w - 1)

-- The calls of `metrics_render` in order.
pub render_all : Registry → Out → Out
render_all g o = render_latency g (
    render_gauge (codes "server_pool_workers_busy") (codes "Worker threads serving a request.")
      (signed64 g.workers_busy) g
      (render_gauge (codes "server_pool_queue_depth")
        (codes "Work items waiting in the thread pool queue.") (signed64 g.queue_depth) g
        (render_gauge (codes "server_connections_active") (codes "Connections currently open.")
          (signed64 g.active) g
          (render_counter (codes "server_connections_refused_total")
            (codes "Connections refused because the server had no capacity.") g.refused g
            (render_counter (codes "server_connections_accepted_total")
              (codes "Connections accepted since process start.") g.accepted g o)))))

-- `none` is the null pointer. The answer is the returned length and the array.
pub metrics_render : Option (List ℕ) → ℕ → Registry → ℕ × Option (List ℕ)
metrics_render none cap g = ((render_all g (record { buf = []; cap = 0; len = 0 })).len, none)
metrics_render (some buf) cap g =
    let o = render_all g (record { buf = buf; cap = cap; len = 0 }) in
    (o.len, some (if ltb 0 cap && leb cap o.len then set o.buf (cap - 1) 0 else o.buf))
