-- ===== src/Ran.antt =====
-- Calls that may not return: abort and p_exit, which the whole program calls, and reads and writes
-- outside an array.
use mathlib.Core.Path.{◌≡◌, refl}
use freenote_probe.Base.{Bool, true, false, if◌then◌else◌}

-- How a call ends: it returns, it calls abort or p_exit, or it reads or writes outside a string or
-- array; or it still waits for the world outside.
pub data Ran {ℓ} (A : Type ℓ) : Type ℓ where
  returns : A → Ran A
  aborts exits faults waits : Ran A

infixl 5 ◌>>=◌
abbrev pub ◌>>=◌ {ℓ κ} : {A : Type ℓ} {B : Type κ} → Ran A → (A → Ran B) → Ran B
returns a >>= f = f a
aborts >>= f = aborts
exits >>= f = exits
faults >>= f = faults
waits >>= f = waits

-- What holds of the result of every call that returns.
abbrev pub Always {ℓ κ} : {A : Type ℓ} → (A → Type κ) → Ran A → Type κ
Always P (returns a) = P a
Always P aborts = Unit
Always P exits = Unit
Always P faults = Unit
Always P waits = Unit

pub Always->>= {ℓ κ μ ν} :
    {A : Type ℓ} {B : Type κ} (P : A → Type μ) (Q : B → Type ν) (m : Ran A) (f : A → Ran B)
    → Always P m
    → ((a : A) → P a → Always Q (f a))
    → Always Q (m >>= f)
Always->>= P Q (returns a) f h g = g a h
Always->>= P Q aborts f h g = tt
Always->>= P Q exits f h g = tt
Always->>= P Q faults f h g = tt
Always->>= P Q waits f h g = tt

pub Always-weaken {ℓ κ μ} :
    {A : Type ℓ} (P : A → Type κ) (Q : A → Type μ) (m : Ran A)
    → Always P m
    → ((a : A) → P a → Q a)
    → Always Q m
Always-weaken P Q (returns a) h g = g a h
Always-weaken P Q aborts h g = tt
Always-weaken P Q exits h g = tt
Always-weaken P Q faults h g = tt
Always-weaken P Q waits h g = tt

-- Where nothing needs to be known of the first call.
pub Always-then {ℓ κ μ} :
    {A : Type ℓ} {B : Type κ} (Q : B → Type μ) (m : Ran A) (f : A → Ran B)
    → ((a : A) → Always Q (f a))
    → Always Q (m >>= f)
Always-then Q (returns a) f g = g a
Always-then Q aborts f g = tt
Always-then Q exits f g = tt
Always-then Q faults f g = tt
Always-then Q waits f g = tt

-- Two ways to go on that agree on every result.
pub bind-same {ℓ κ} :
    {A : Type ℓ} {B : Type κ} (m : Ran A) (f g : A → Ran B)
    → ((a : A) → f a ≡ g a)
    → (m >>= f) ≡ (m >>= g)
bind-same (returns a) f g h = h a
bind-same aborts f g h = refl
bind-same exits f g h = refl
bind-same faults f g h = refl
bind-same waits f g h = refl

pub Always-if {ℓ κ} :
    {A : Type ℓ} (P : A → Type κ) (b : Bool) (m n : Ran A)
    → Always P m
    → Always P n
    → Always P (if b then m else n)
Always-if P true m n h k = h
Always-if P false m n h k = k
