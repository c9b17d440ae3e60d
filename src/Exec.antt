-- ===== src/Exec.antt =====
-- What a step of a server's loop comes to: the next state, the end of the process (`die` and
-- `perror_die` of src/utils.c), or a fault (an access out of bounds, or a call on a descriptor that
-- is not open). Also what accept returns to the event loops.
use concurrent_servers.Prelude.{
  ℕ, Bool, true, false, ◌||◌, Option, none, some, ◌≡◌, ◌≢◌, refl, subst,
}
use concurrent_servers.Sys.{Errno, eintr, eagain, ewouldblock, econnaborted, is_eintr, is_again}

pub data Exec {ℓ} (A : Type ℓ) : Type ℓ where
  done : A → Exec A
  died : Exec A
  fault : Exec A

infixl 5 ◌⟫=◌
abbrev pub ◌⟫=◌ {ℓ κ} : {A : Type ℓ} {B : Type κ} → Exec A → (A → Exec B) → Exec B
done a ⟫= f = f a
died ⟫= f = died
fault ⟫= f = fault

abbrev pub checked {ℓ} : {A : Type ℓ} → Option A → Exec A
checked none = fault
checked (some a) = done a

-- A new descriptor, with whether fcntl can make it non-blocking (`make_socket_non_blocking`), or an
-- errno.
pub data AcceptResult : Type 0 where
  accepted : ℕ → Bool → AcceptResult
  accept_failed : Errno → AcceptResult

abbrev pub is_aborted : Errno → Bool
is_aborted econnaborted = true
is_aborted _ = false

-- The failures of accept that the loops of select and epoll pass over.
abbrev pub is_passing : Errno → Bool
is_passing e = is_again e || (is_eintr e || is_aborted e)

-- The errnos of accept with which the loops end the process.
abbrev pub EndsLoop : Errno → Type 0
EndsLoop e = (e ≢ eintr) × (e ≢ eagain) × (e ≢ ewouldblock) × (e ≢ econnaborted)

pub not_passing : (e : Errno) → is_passing e ≡ false → EndsLoop e
not_passing e h = (
  λ x. clash (subst (λ y. is_passing y ≡ false) x h),
  λ x. clash (subst (λ y. is_passing y ≡ false) x h),
  λ x. clash (subst (λ y. is_passing y ≡ false) x h),
  λ x. clash (subst (λ y. is_passing y ≡ false) x h),
)
  where
    clash : true ≡ false → ⊥
    clash h = cc

pub not_eintr : (e : Errno) → is_eintr e ≡ false → e ≢ eintr
not_eintr e h x = clash (subst (λ y. is_eintr y ≡ false) x h)
  where
    clash : true ≡ false → ⊥
    clash h = cc

-- There is no fault: a good state, or the end of the process for one of the reasons.
pub data Ends {ℓ} {A : Type ℓ} (Good : A → Type 0) (Why : Type 0) : Exec A → Type ℓ where
  completed : (a : A) → Good a → Ends Good Why (done a)
  gave_up : Why → Ends Good Why died

pub Ends-bind {ℓ κ} :
    {A : Type ℓ} {B : Type κ} {Good : A → Type 0} {Good' : B → Type 0} {Why : Type 0} (e : Exec A)
    (f : A → Exec B)
    → Ends Good Why e
    → ((a : A) → Good a → Ends Good' Why (f a))
    → Ends Good' Why (e ⟫= f)
Ends-bind (done a) f (completed _ g) h = h a g
Ends-bind died f (gave_up w) h = gave_up w
Ends-bind fault f e h = elim e [ ]

pub Ends-weaken {ℓ} :
    {A : Type ℓ} {Good Good' : A → Type 0} {Why : Type 0} {e : Exec A}
    → Ends Good Why e
    → ((a : A) → Good a → Good' a)
    → Ends Good' Why e
Ends-weaken (completed a g) h = completed a (h a g)
Ends-weaken (gave_up w) h = gave_up w

pub Ends-because {ℓ} :
    {A : Type ℓ} {Good : A → Type 0} {Why Why' : Type 0} {e : Exec A}
    → Ends Good Why e
    → (Why → Why')
    → Ends Good Why' e
Ends-because (completed a g) h = completed a g
Ends-because (gave_up w) h = gave_up (h w)

pub bind-done {ℓ κ} :
    {A : Type ℓ} {B : Type κ} (e : Exec A) (f : A → Exec B) (b : B)
    → e ⟫= f ≡ done b
    → (a : A) × (e ≡ done a) × (f a ≡ done b)
bind-done (done a) f b h = (a, refl, h)
bind-done died f b h = cc
bind-done fault f b h = cc
