-- ===== src/Metrics/Render/Size.antt =====
-- The body of the exposition is short.
use concurrent_servers.Prelude.{
  ℕ, ◌+◌, ◌*◌, ◌≤◌, ◌<◌, ◌≡◌, List, [], ◌∷◌, arith, length, All, length-append,
}
use concurrent_servers.Text.{length-decimal, length-decimal_signed, length-decimal_padded}
use concurrent_servers.Metrics.{Registry, model_label}
use concurrent_servers.Metrics.Render.{help_line, type_line, value_line, bucket_line, seconds_text}
use concurrent_servers.Metrics.Render.Body.{lines, join, body}

length-help_line :
    (name help : List ℕ) → length (help_line name help) ≡ length name + length help + 9
unfolding help_line
length-help_line name help = omega (arith, length-append {0})

length-type_line :
    (name kind : List ℕ) → length (type_line name kind) ≡ length name + length kind + 9
unfolding type_line
length-type_line name kind = omega (arith, length-append {0})

length-value_line :
    (name label value : List ℕ)
    → length (value_line name label value) ≡ length name + length label + length value + 12
unfolding value_line
length-value_line name label value = omega (arith, length-append {0})

length-bucket_line :
    (label upper value : List ℕ)
    → length (bucket_line label upper value) ≡ length label + length upper + length value + 56
unfolding bucket_line
length-bucket_line label upper value = omega (arith, length-append {0})

length-seconds_text : (ns : ℕ) → length (seconds_text ns) ≤ 41
length-seconds_text ns = omega (arith, length-append {0}, length-decimal, length-decimal_padded)

abbrev pub IsLine : List ℕ → Type 0
IsLine line = (0 < length line) × (length line ≤ 200)

pub lines-IsLine : (g : Registry) → length (model_label g) ≤ 31 → All IsLine (lines g)
unfolding lines
lines-IsLine g h = omega (
  arith, length-help_line, length-type_line, length-value_line, length-bucket_line,
  length-seconds_text, length-decimal, length-decimal_signed,
)

length-join-le : (ls : List (List ℕ)) → All IsLine ls → length (join ls) ≤ 200 * length ls
length-join-le [] h = omega arith
length-join-le (line ∷ rest) h =
    omega (arith, length-append line (join rest), length-join-le rest h.1, h.0)

-- The body has 30 lines, of at most 200 bytes.
pub length-body-le : (g : Registry) → length (model_label g) ≤ 31 → length (body g) ≤ 6000
unfolding body lines
length-body-le g h = omega (arith, length-join-le (lines g) (lines-IsLine g h))

pub length-body-pos : (g : Registry) → 0 < length (body g)
unfolding body lines help_line
length-body-pos g = omega arith
