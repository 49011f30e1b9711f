-- ===== src/Prelude/Raise.antt =====
-- Code that may raise and mutates nothing that it shares: a chain of results of which the first
-- exception ends the chain.
use mathlib.Core.Path.{◌≡◌, refl}
use vector_catalog_service.Prelude.Exec.{Exc, ok, raised}

infixl 5 ◌>>=◌
abbrev pub ◌>>=◌ {ℓ κ} : {A : Type ℓ} {B : Type κ} → Exc A → (A → Exc B) → Exc B
ok a >>= f = f a
raised e >>= f = raised e

-- A chain that ends without an exception has come through its first step.
pub bind-ok {ℓ κ} :
    {A : Type ℓ} {B : Type κ} (m : Exc A) (f : A → Exc B) (b : B)
    → (m >>= f) ≡ ok b
    → (a : A) × (m ≡ ok a) × (f a ≡ ok b)
bind-ok (ok a) f b h = (a, refl, h)
bind-ok (raised e) f b h = cc
