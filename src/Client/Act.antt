-- ===== src/Client/Act.antt =====
-- Methods of the client that may throw: what was changed before an exception stays changed, so the
-- state comes back beside the exception too.
use ram_vram_sharing.Prelude.{arith, ◌≡◌, refl, ◌⊎◌, inl, inr}
use ram_vram_sharing.Memory.Raw.{Exception, Result, ok, throw}

abbrev pub Act : Type 0 → Type 0 → Type 0
Act S A = S → S × Result A

abbrev pub continue : {S A B : Type 0} → S × Result A → (A → Act S B) → S × Result B
continue (s, ok a) f = f a s
continue (s, throw e) f = (s, throw e)

infixl 5 ◌>>=◌ ◌>>◌
abbrev pub ◌>>=◌ : {S A B : Type 0} → Act S A → (A → Act S B) → Act S B
◌>>=◌ m f s = continue (m s) f

abbrev pub ◌>>◌ : {S A B : Type 0} → Act S A → Act S B → Act S B
m >> k = m >>= λ _. k

abbrev pub pure : {S A : Type 0} → A → Act S A
pure a s = (s, ok a)

abbrev pub raise : {S A : Type 0} → Exception → Act S A
raise e s = (s, throw e)

pub Result-cases :
    {S A : Type 0} (r : S × Result A)
    → ((s : S) × (e : Exception) × (r ≡ (s, throw e))) ⊎ ((s : S) × (a : A) × (r ≡ (s, ok a)))
Result-cases (s, throw e) = inl (s, e, refl)
Result-cases (s, ok a) = inr (s, a, refl)

pub Thrown-cases : (r : Result (Unit {0})) → ((x : Exception) × (r ≡ throw x)) ⊎ (r ≡ ok tt)
Thrown-cases (throw x) = inl (x, refl)
Thrown-cases (ok tt) = inr refl

pub thrown : (x : Exception) → let r : Result (Unit {0}) = throw x in ¬ (r ≡ ok tt)
thrown x e = ground arith
