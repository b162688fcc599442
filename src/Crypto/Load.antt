-- ===== src/Crypto/Load.antt =====
-- `mod_init` and `mod_exit` of LKM/crypto_challenge/crypto_challenge.c: the /proc entries, the
-- workers and the control thread.
use linux_kernel_modules.Base.{
  ℤ, pos, negsuc, if◌then◌else◌, Bool, true, false, not, ◌&&◌, ◌||◌, Option, none, some, List, [],
  ◌∷◌, map, ◌≡◌, ◌≢◌, ◌↔◌, ◌>>=◌, refl, ap, Bool-cases, inl, inr, arith,
}
use mathlib.Core.Option.{some-injective}
use linux_kernel_modules.Kernel.{Ptr, null, is_null, is_err, is_object, is_zero}
use linux_kernel_modules.Crypto.Worker.{
  Worker, Answers, cleared, start_worker, stop_worker, Documented,
}

-- What the module holds: `proc_dir`, `proc_file`, `ctx.workers` and `ctrl_task`, null for an entry
-- that is not there or has been removed.
pub record Module : Type 0 where
  pub dir : Ptr
  pub file : Ptr
  pub workers : List Worker
  pub ctrl : Ptr

-- What proc_mkdir, proc_create, the calls of each `start_worker` and kthread_run return.
pub record Replies : Type 0 where
  pub dir : Ptr
  pub file : Ptr
  pub workers : List Answers
  pub ctrl : Ptr

abbrev pub started : Answers → Worker
started a = (start_worker a).0

abbrev pub cleared_all : List Answers → List Worker
cleared_all r = map (λ a. cleared) r

-- `mod_init`: the return value of `start_worker` and the control thread are not looked at.
unfoldable pub mod_init : Replies → Module × ℤ
mod_init r =
    let none_started : List Worker = cleared_all r.workers in
    if is_null r.dir
    then (record { dir = r.dir; file = null; workers = none_started; ctrl = null }, negsuc 11)
    else if is_null r.file
    then (record { dir = r.dir; file = r.file; workers = none_started; ctrl = null }, negsuc 11)
    else (
      record { dir = r.dir; file = r.file; workers = map started r.workers; ctrl = r.ctrl },
      pos 0,
    )

unfoldable pub stop_workers : List Worker → Option (List Worker)
stop_workers [] = some []
stop_workers (w ∷ ws) = do
  stopped ← stop_worker w
  others ← stop_workers ws
  some (stopped ∷ others)

-- The module with nothing but its workers.
abbrev pub removed : List Worker → Module
removed ws = record { dir = null; file = null; workers = ws; ctrl = null }

-- `mod_exit`; `none`: `kthread_stop` is called on an error pointer.
unfoldable pub mod_exit : Module → Option Module
mod_exit m =
    let workers = stop_workers m.workers in
    if is_err m.ctrl then none else (do ws ← workers; some (removed ws))

abbrev pub AllDocumented : List Answers → Type 0
AllDocumented [] = Unit {0}
AllDocumented (a ∷ rest) = Documented a × AllDocumented rest

-- Its start succeeds, or fails at the first allocation.
abbrev pub complete : Answers → Bool
complete a = is_zero (start_worker a).1 || is_null a.buf

abbrev pub all_complete : List Answers → Bool
all_complete [] = true
all_complete (a ∷ rest) = complete a && all_complete rest

complete_stops :
    (a : Answers) → Documented a → complete a ≡ true → stop_worker (started a) ≡ some cleared
unfolding start_worker stop_worker
complete_stops a d h = ground arith

incomplete_stays :
    (a : Answers) → Documented a → complete a ≡ false → stop_worker (started a) ≢ some cleared
unfolding start_worker stop_worker
incomplete_stays a d h e = ground arith

and_true : {a b : Bool} → a ≡ true → b ≡ true → (a && b) ≡ true
and_true x y = ground arith

true_and : {a b : Bool} → (a && b) ≡ true → (a ≡ true) × (b ≡ true)
true_and h = ground arith

-- Two calls both have to succeed.
both_some :
    (m : Option Worker) (n : Option (List Worker)) (c : Worker) (cs : List Worker)
    → ((m >>= λ w. n >>= λ ws. some (w ∷ ws)) ≡ some (c ∷ cs)) ↔ ((m ≡ some c) × (n ≡ some cs))
both_some none n c cs = (λ e. cc, λ h. cc)
both_some (some w) none c cs = (λ e. cc, λ h. cc)
both_some (some w) (some ws) c cs = (λ e. (cc, cc), λ (e, es). cc)

complete_iff :
    (a : Answers) → Documented a → (stop_worker (started a) ≡ some cleared) ↔ (complete a ≡ true)
complete_iff a d = (
  λ e. elim (Bool-cases (complete a)) [ inl h ↦ h | inr h ↦ absurd (incomplete_stays a d h e) ],
  complete_stops a d,
)

-- All workers are stopped and cleared exactly when each has been started, or refused its buffer.
stop_workers_iff :
    (rs : List Answers)
    → AllDocumented rs
    → (stop_workers (map started rs) ≡ some (cleared_all rs)) ↔ (all_complete rs ≡ true)
unfolding stop_workers
stop_workers_iff [] d = (λ e. refl, λ h. refl)
stop_workers_iff (a ∷ rs) (d, ds) =
    let both =
      both_some (stop_worker (started a)) (stop_workers (map started rs)) cleared
        (cleared_all rs) in
    let one = complete_iff a d in
    let others = stop_workers_iff rs ds in
    (
      λ e. let (x, y) = both.0 e in and_true (one.0 x) (others.0 y),
      λ h. let (x, y) = true_and h in both.1 (one.1 x, others.1 y),
    )

not_null : (p : Ptr) → is_object p ≡ true → is_null p ≡ false
not_null p h = ground arith

emptied :
    (m : Option (List Worker)) (cs : List Worker)
    → (m >>= λ ws. some (removed ws)) ≡ some (removed cs)
    → m ≡ some cs
emptied none cs e = cc
emptied (some ws) cs e = ap some (ap Module.workers (some-injective _ _ e))

-- Whatever the workers and the control thread come to, a load with both /proc entries returns 0. The
-- unload then gives everything back exactly when the
-- control thread was made, and each worker was started or refused its buffer.
pub mod_exit_iff :
    (r : Replies)
    → is_object r.dir ≡ true
    → is_object r.file ≡ true
    → AllDocumented r.workers
    → ((mod_init r).1 ≡ pos 0)
      × ((mod_exit (mod_init r).0 ≡ some (removed (cleared_all r.workers)))
          ↔ ((not (is_err r.ctrl) && all_complete r.workers) ≡ true))
unfolding mod_init mod_exit
mod_exit_iff r hd hf ds =
    simp (not_null r.dir hd, not_null r.file hf) (refl, finish (is_err r.ctrl))
  where
    finish :
        (failed : Bool)
        → ((if failed
              then none
              else (do ws ← stop_workers (map started r.workers); some (removed ws)))
            ≡ some (removed (cleared_all r.workers)))
          ↔ ((not failed && all_complete r.workers) ≡ true)
    finish true = (λ e. cc, λ h. cc)
    finish false =
        let all = stop_workers_iff r.workers ds in
        (λ e. all.0 (emptied _ _ e), λ h. rw (all.1 h) refl)
