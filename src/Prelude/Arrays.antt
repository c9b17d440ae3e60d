-- ===== src/Prelude/Arrays.antt =====
-- Writes within an array, arrays of one value, and the descriptors that are open.
use Prim.Native.Nat.{ℕ, zero, suc, ◌<◌}
use mathlib.Core.Path.{◌≡◌, refl}
use mathlib.Core.List.{List, [], ◌∷◌}
use mathlib.Core.Option.{some}
use native.Mathlib.Omega.{arith}
use concurrent_servers.Prelude.Tests.{◌==◌, if◌then◌else◌, lt→ltb}
use concurrent_servers.Prelude.Lists.{length, set, write_at, get_elem?, replicate}

pub write_at_lem {ℓ} :
    {A : Type ℓ} (xs : List A) (i : ℕ) (v : A) → i < length xs → write_at xs i v ≡ some (set xs i v)
write_at_lem xs i v h = rw (lt→ltb i (length xs) h) refl

pub get_elem?-replicate {ℓ} :
    {A : Type ℓ} (n i : ℕ) (a b : A) → get_elem? (replicate n a) i ≡ some b → b ≡ a
get_elem?-replicate zero i a b h = cc
get_elem?-replicate (suc n) zero a b h = cc
get_elem?-replicate (suc n) (suc i) a b h = get_elem?-replicate n i a b h

-- A list without the first `fd` in it: close on the descriptors that are open.
abbrev pub remove : ℕ → List ℕ → List ℕ
remove fd [] = []
remove fd (x ∷ xs) = if x == fd then xs else x ∷ remove fd xs

pub remove_head : (x : ℕ) (xs : List ℕ) → remove x (x ∷ xs) ≡ xs
remove_head x xs = ground arith
