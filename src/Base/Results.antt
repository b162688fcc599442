-- ===== src/Base/Results.antt =====
-- What a handler returns: a count, or a negated error number.
use Prim.Native.Nat.{ℕ}
use mathlib.Core.Option.{Option, none, some}

pub data Errno : Type 0 where
  eagain eintr efault einval enomem enotty : Errno

pub data Ret : Type 0 where
  ok : ℕ → Ret
  fail : Errno → Ret

-- A program of calls, of which one may fail.
infixl 5 ◌>>=◌
abbrev pub ◌>>=◌ {ℓ κ} : {A : Type ℓ} {B : Type κ} → Option A → (A → Option B) → Option B
some a >>= f = f a
none >>= f = none
