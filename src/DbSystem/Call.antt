-- ===== src/DbSystem/Call.antt =====
-- Calls that may wait: `none` is a call that waits for another thread.
use polardb_uncompleted.Base.{◌≡◌, refl, ap, Option, none, some}
use polardb_uncompleted.Base.Run.{Run, ok, assertion_failed, undefined}

infixl 5 ◌>>+◌
unfoldable pub ◌>>+◌ {ℓ κ} :
    {A : Type ℓ} {B : Type κ} → Run (Option A) → (A → Run (Option B)) → Run (Option B)
ok none >>+ f = ok none
ok (some a) >>+ f = f a
assertion_failed >>+ f = assertion_failed
undefined >>+ f = undefined

-- A call that does not wait.
abbrev pub at_once {ℓ} : {A : Type ℓ} → Run A → Run (Option A)
at_once (ok a) = ok (some a)
at_once assertion_failed = assertion_failed
at_once undefined = undefined

pub at_once-some {ℓ} : {A : Type ℓ} (r : Run A) (a : A) → at_once r ≡ ok (some a) → r ≡ ok a
at_once-some (ok x) a h = cc
at_once-some assertion_failed a h = absurd cc
at_once-some undefined a h = absurd cc

-- A chain that returns has returned at each step.
pub steps_back {ℓ κ} :
    {A : Type ℓ} {B : Type κ} (r : Run (Option A)) (f : A → Run (Option B)) (b : B)
    → (r >>+ f) ≡ ok (some b)
    → (a : A) × (r ≡ ok (some a)) × (f a ≡ ok (some b))
unfolding ◌>>+◌
steps_back (ok none) f b h = absurd cc
steps_back (ok (some a)) f b h = (a, refl, h)
steps_back assertion_failed f b h = absurd cc
steps_back undefined f b h = absurd cc

-- A chain whose first step returns goes on with the next.
pub steps_on {ℓ κ} :
    {A : Type ℓ} {B : Type κ} (r : Run (Option A)) (f : A → Run (Option B)) (a : A)
    → r ≡ ok (some a)
    → (r >>+ f) ≡ f a
unfolding ◌>>+◌
steps_on r f a h = ap (λ s. s >>+ f) h
