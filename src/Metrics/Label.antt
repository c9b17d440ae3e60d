-- ===== src/Metrics/Label.antt =====
-- What `set_model` leaves as the label of every series.
use concurrent_servers.Prelude.{
  ℕ, zero, suc, ◌+◌, ◌-◌, ◌<◌, ◌≡◌, ◌≢◌, refl, sym, ap, ◌∙◌, inl, inr, Bool, true, false, ◌&&◌,
  Option, none, some, List, [], ◌∷◌, ◌++◌, arith, ◌==◌, if◌then◌else◌, Bool-cases, length, take,
  drop, set, splice, All, length-take, take-length-take, length-splice, take-append-drop,
  take-set_next, take-splice_next, c_string-append_nul, append_assoc,
}
use concurrent_servers.Metrics.{
  Registry, model_max, unknown_label, model_label, is_label_char, label_length, store_label,
  set_model, metrics_init,
}

pub all_label : List ℕ → Bool
all_label [] = true
all_label (c ∷ cs) = is_label_char c && all_label cs

-- The label that the source promises: the first 31 bytes if all of them may stand in a label and
-- there is one, and otherwise "unknown".
pub sanitized : Option (List ℕ) → List ℕ
sanitized none = unknown_label
sanitized (some []) = unknown_label
sanitized (some (c ∷ cs)) =
    let front = take (model_max - 1) (c ∷ cs) in if all_label front then front else unknown_label

label_length_lem :
    (cs : List ℕ) (n k : ℕ)
    → n + k ≡ model_max - 1
    → label_length cs n ≡ (if all_label (take k cs) then n + length (take k cs) else 0)
unfolding label_length all_label
label_length_lem [] n zero e = omega arith
label_length_lem [] n (suc k) e = omega arith
label_length_lem (c ∷ cs) n zero e = ground arith
label_length_lem (c ∷ cs) n (suc k) e = ground (arith, label_length_lem cs (n + 1) k)

label_length-nil : (n : ℕ) → label_length [] n ≡ n
unfolding label_length
label_length-nil n = refl

all_label-nonzero : (cs : List ℕ) → all_label cs ≡ true → All (λ c. c ≢ 0) cs
unfolding all_label
all_label-nonzero [] h = tt
all_label-nonzero (c ∷ cs) h = ((λ z. ground arith), all_label-nonzero cs (ground arith))

-- An array that begins with a label and a NUL is read back as that label.
read_back :
    (g : Registry) (c : ℕ) (cs : List ℕ)
    → take (suc (length (c ∷ cs))) g.model ≡ (c ∷ cs) ++ (0 ∷ [])
    → All (λ x. x ≢ 0) (c ∷ cs)
    → model_label g ≡ c ∷ cs
unfolding model_label
read_back g c cs e nonzero =
    rw whole (ground (arith, nonzero.0, c_string-append_nul cs rest nonzero.1))
  where
    rest : List ℕ
    rest = drop (suc (length (c ∷ cs))) g.model

    whole : g.model ≡ (c ∷ cs) ++ (0 ∷ rest)
    whole =
        sym (take-append-drop (suc (length (c ∷ cs))) g.model)
        ∙ ap (λ xs. xs ++ rest) e
        ∙ append_assoc (c ∷ cs) (0 ∷ []) rest

-- The array after a copy of `front` and a NUL behind it, as `set_model` writes them.
written :
    (model front : List ℕ)
    → length front < length model
    → take (suc (length front)) (set (splice model 0 front) (length front) 0) ≡ front ++ (0 ∷ [])
written model front h =
    take-set_next (length front) (splice model 0 front) 0
      (omega (arith, length-splice model 0 front))
    ∙ ap (λ xs. xs ++ (0 ∷ []))
        (take-splice_next 0 (length front) model front (omega arith) (omega arith))

store_label-unknown :
    (label : List ℕ) (g : Registry)
    → length g.model ≡ model_max
    → model_label (store_label 0 label g) ≡ unknown_label
unfolding store_label
store_label-unknown label g h =
    read_back _ _ _ (take-splice_next 0 8 g.model (unknown_label ++ (0 ∷ [])) refl (omega arith))
      (ground arith)

store_label-front :
    (n : ℕ) (label : List ℕ) (g : Registry) (c : ℕ) (cs : List ℕ)
    → length g.model ≡ model_max
    → n ≡ length (c ∷ cs)
    → n < model_max
    → take n label ≡ c ∷ cs
    → all_label (c ∷ cs) ≡ true
    → model_label (store_label n label g) ≡ c ∷ cs
unfolding store_label
store_label-front n label g c cs h e small front ok =
    let nonzero : (n == 0) ≡ false = ground arith in
    rw nonzero (
      read_back _ c cs (rw (front, e) (written g.model (c ∷ cs) (omega arith)))
        (all_label-nonzero (c ∷ cs) ok))

model_label-set_model :
    (label : Option (List ℕ)) (g : Registry)
    → length g.model ≡ model_max
    → model_label (set_model label g) ≡ sanitized label
unfolding set_model sanitized
model_label-set_model none g h = store_label-unknown [] g h
model_label-set_model (some []) g h = rw (label_length-nil 0) (store_label-unknown [] g h)
model_label-set_model (some (c ∷ cs)) g h = elim (Bool-cases (all_label front)) [
  | inl ok ↦ rw ok (
      store_label-front (label_length (c ∷ cs) 0) (c ∷ cs) g c (take 30 cs) h (all_taken ok)
        (omega (arith, all_taken ok, length-take 30 cs))
        (rw (all_taken ok) (take-length-take (model_max - 1) (c ∷ cs))) ok)
  | inr bad ↦ rw (taken, bad) (store_label-unknown (c ∷ cs) g h)
]
  where
    front : List ℕ
    front = take (model_max - 1) (c ∷ cs)

    taken : label_length (c ∷ cs) 0 ≡ (if all_label front then 0 + length front else 0)
    taken = label_length_lem (c ∷ cs) 0 31 refl

    all_taken : all_label front ≡ true → label_length (c ∷ cs) 0 ≡ length front
    all_taken ok = ground (arith, taken)

model_label-metrics_init_lem :
    (label : Option (List ℕ)) (g : Registry)
    → model_label (metrics_init label g) ≡ model_label (set_model label g)
unfolding metrics_init model_label
model_label-metrics_init_lem label g = refl

-- What may stand between the quotes of a label in the exposition format.
pub record IsLabel (label : List ℕ) : Type 0 where
  pub safe : all_label label ≡ true
  pub nonempty : 0 < length label
  pub short : length label < model_max

sanitized-IsLabel : (label : Option (List ℕ)) → IsLabel (sanitized label)
unfolding sanitized all_label
sanitized-IsLabel none = record { safe = refl; nonempty = omega arith; short = omega arith }
sanitized-IsLabel (some []) = record { safe = refl; nonempty = omega arith; short = omega arith }
sanitized-IsLabel (some (c ∷ cs)) = elim (Bool-cases (all_label front)) [
  | inl ok ↦
      rw ok (record { safe = ok; nonempty = omega arith; short = omega (arith, length-take 30 cs) })
  | inr bad ↦ rw bad (record { safe = refl; nonempty = omega arith; short = omega arith })
]
  where
    front : List ℕ
    front = take (model_max - 1) (c ∷ cs)

-- The label that every series carries after `metrics_init` is the sanitized argument: "unknown" for
-- a null or empty argument or one with a byte outside [A-Za-z0-9_-] among its first 31, and those
-- bytes otherwise. It holds label characters alone, and is neither empty nor longer than 31 bytes.
-- The array has 32 bytes.
pub model_label-metrics_init :
    (label : Option (List ℕ)) (g : Registry)
    → length g.model ≡ model_max
    → (model_label (metrics_init label g) ≡ sanitized label) × IsLabel (sanitized label)
model_label-metrics_init label g h = (
  model_label-metrics_init_lem label g ∙ model_label-set_model label g h,
  sanitized-IsLabel label,
)
