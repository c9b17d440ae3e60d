-- ===== src/Metrics/Tests.antt =====
-- Examples of src/metrics.c.
use concurrent_servers.Prelude.{
  ℕ, ◌≡◌, refl, [], ◌∷◌, none, some, arith, length, replicate, length-replicate,
}
use concurrent_servers.Text.{codes}
use concurrent_servers.Metrics.{zeroed, model_label, metrics_init}
use concurrent_servers.Metrics.Label.{sanitized, IsLabel, model_label-metrics_init}
use concurrent_servers.Metrics.Buckets.{observe_all, Counted, observe_all-Counted}
use concurrent_servers.Metrics.Render.{metrics_render}
use concurrent_servers.Metrics.Render.Body.{body}
use concurrent_servers.Metrics.Render.Buffer.{Rendered, metrics_render-Rendered}

model_label-metrics_init_example :
    (model_label (metrics_init (some (codes "thread-pool")) zeroed)
      ≡ sanitized (some (codes "thread-pool")))
    × IsLabel (sanitized (some (codes "thread-pool")))
model_label-metrics_init_example =
    model_label-metrics_init (some (codes "thread-pool")) zeroed (length-replicate {A = ℕ} 32 0)

-- One duration on a bound, one below all of them, one beyond.
observe_all-Counted_example :
    Counted zeroed
      (20_000 ∷ 1 ∷ 60_000_000 ∷ [])
      (observe_all (20_000 ∷ 1 ∷ 60_000_000 ∷ []) zeroed)
observe_all-Counted_example =
    observe_all-Counted (20_000 ∷ 1 ∷ 60_000_000 ∷ []) zeroed refl (omega arith)

metrics_render-Rendered_example :
    Rendered zeroed 100 (metrics_render (some (replicate 100 7)) 100 zeroed)
    × (metrics_render none 100 zeroed ≡ (length (body zeroed), none))
unfolding model_label
metrics_render-Rendered_example =
    metrics_render-Rendered zeroed (replicate 100 7) 100 (omega arith)
      (omega (arith, length-replicate {A = ℕ} 100 7)) (omega arith)
