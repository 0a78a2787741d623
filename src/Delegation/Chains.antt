-- ===== src/Delegation/Chains.antt =====
-- Chains of checks that succeed.
use tinycloud_agents.Base.{◌≡◌, refl, Bool, true, false}
use tinycloud_agents.Delegation.{Checked, ok, err, ◌>>=◌, unless}

-- A chain that succeeds has a first value, and goes on with it.
pub bind_ok :
    {E A B : Type 0} (m : Checked E A) (f : A → Checked E B) (b : B)
    → (m >>= f) ≡ ok b
    → (a : A) × (m ≡ ok a) × (f a ≡ ok b)
bind_ok (ok a) f b e = (a, refl, e)
bind_ok (err x) f b e = absurd (cc e)

pub unless_ok : {E : Type 0} (b : Bool) (e : E) → unless b e ≡ ok tt → b ≡ true
unless_ok true e q = refl
unless_ok false e q = absurd (cc q)

pub ok_inv : {E A : Type 0} (a b : A) → ◌≡◌ {A = Checked E A} (ok a) (ok b) → a ≡ b
ok_inv a b e = cc e
