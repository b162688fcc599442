-- ===== src/Base/Update.antt =====
-- A table of processes in which one moves.
use Prim.Native.Nat.{ℕ}
use mathlib.Core.Path.{◌≡◌}
use mathlib.Core.Logic.{◌⊎◌, inl, inr}
use linux_kernel_modules.Base.Tests.{◌==◌, Bool-cases, if◌then◌else◌}

abbrev pub update {ℓ} : {A : Type ℓ} → (ℕ → A) → ℕ → A → ℕ → A
update pc i p j = if i == j then p else pc j

-- Where a process stands after `i` has moved to `p`.
pub stands {ℓ} :
    {A : Type ℓ} (pc : ℕ → A) (i : ℕ) (p : A) (k : ℕ) (q : A)
    → update pc i p k ≡ q
    → (p ≡ q) ⊎ (pc k ≡ q)
stands pc i p k q e = elim (Bool-cases (i == k)) [
  | inl same ↦ inl (rw same at e)
  | inr apart ↦ inr (rw apart at e)
]
