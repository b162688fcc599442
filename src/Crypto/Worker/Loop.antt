-- ===== src/Crypto/Worker/Loop.antt =====
-- The loop of a worker of LKM/crypto_challenge/crypto_challenge.c: `worker_fn` and `do_crypto`. The
-- cipher of the kernel's crypto library is a parameter.
use linux_kernel_modules.Base.{
  ℕ, zero, suc, ◌+◌, ◌≡◌, ap, ◌∙◌, Bool, true, false, List, [], ◌∷◌, replicate, ℤ, arith,
}

abbrev pub work_size : ℕ
work_size = 4096

abbrev pub key_size : ℕ
key_size = 16

abbrev pub iv_size : ℕ
iv_size = 16

-- The memory of a `struct worker`.
pub record Work : Type 0 where
  pub buf : List ℕ
  pub key : List ℕ
  pub iv : List ℕ

-- As `start_worker` fills it.
abbrev pub filled : Work
filled = record {
  buf = replicate work_size 170;
  key = replicate key_size 17;
  iv = replicate iv_size 34;
}

-- `crypto_skcipher_encrypt` of a request that encrypts `buf` in place, with its `iv`: what it leaves
-- in both, and what it returns.
abbrev pub Cipher : Type 0
Cipher = (key buf iv : List ℕ) → (List ℕ × List ℕ) × ℤ

module _ (encrypt : Cipher) where
  unfoldable pub do_crypto : Work → Work × ℤ
  do_crypto w = let r = encrypt w.key w.buf w.iv in (record w { buf = r.0.0; iv = r.0.1 }, r.1)

  -- `worker_fn`: for each turn before `kthread_should_stop`, what it finds in `run`; with the counter
  -- of operations, to which this worker alone adds. The result of `do_crypto` is not looked at.
  unfoldable pub worker_fn : (run : List Bool) → Work → (ops : ℕ) → Work × ℕ
  unfolding do_crypto
  worker_fn [] w ops = (w, ops)
  worker_fn (false ∷ run) w ops = worker_fn run w ops
  worker_fn (true ∷ run) w ops = worker_fn run (do_crypto w).0 (ops + 1)

abbrev pub on : List Bool → ℕ
on [] = 0
on (true ∷ run) = suc (on run)
on (false ∷ run) = on run

-- `n` encryptions, one behind the other.
abbrev pub encrypted : (encrypt : Cipher) → ℕ → Work → Work
encrypted encrypt zero w = w
encrypted encrypt (suc n) w = encrypted encrypt n (do_crypto encrypt w).0

-- For any cipher, one that always fails included: a worker counts one operation for each turn in
-- which it finds `run` set, and its buffer has been given to the cipher as many times, each time with
-- the bytes and the initial vector that the time before left.
pub worker_fn_lem :
    (encrypt : Cipher) (run : List Bool) (w : Work) (ops : ℕ)
    → worker_fn encrypt run w ops ≡ (encrypted encrypt (on run) w, ops + on run)
unfolding worker_fn
worker_fn_lem encrypt [] w ops = ap (λ n. (w, n)) (omega arith)
worker_fn_lem encrypt (false ∷ run) w ops = worker_fn_lem encrypt run w ops
worker_fn_lem encrypt (true ∷ run) w ops =
    worker_fn_lem encrypt run (do_crypto encrypt w).0 (ops + 1)
    ∙ ap (λ n. (encrypted encrypt (on run) (do_crypto encrypt w).0, n)) (omega arith)
