-- ===== src/Crypto/Worker.antt =====
-- `start_worker` and `stop_worker` of LKM/crypto_challenge/crypto_challenge.c: the four objects of a
-- worker. `worker_fn` is in Threads.
pub mod Loop
use linux_kernel_modules.Base.{
  ℤ, pos, negsuc, if◌then◌else◌, Option, none, some, ◌≡◌, arith, true, false, ◌⊎◌,
}
use linux_kernel_modules.Kernel.{Ptr, null, object, is_null, is_err, is_object, ptr_err, is_zero}

-- The pointers of `struct worker`.
pub record Worker : Type 0 where
  pub buf : Ptr
  pub tfm : Ptr
  pub req : Ptr
  pub task : Ptr

abbrev pub cleared : Worker
cleared = record { buf = null; tfm = null; req = null; task = null }

-- What kmalloc, crypto_alloc_skcipher, skcipher_request_alloc and kthread_create return.
pub record Answers : Type 0 where
  pub buf : Ptr
  pub tfm : Ptr
  pub req : Ptr
  pub task : Ptr

-- `start_worker`: the slots are filled one by one, and a failure returns at once.
unfoldable pub start_worker : Answers → Worker × ℤ
start_worker a =
    let w1 = record cleared { buf = a.buf } in
    let w2 = record w1 { tfm = a.tfm } in
    let w3 = record w2 { req = a.req } in
    let w4 = record w3 { task = a.task } in
    if is_null a.buf
    then (w1, negsuc 11)
    else if is_err a.tfm
    then (w2, ptr_err a.tfm)
    else if is_null a.req
    then (w3, negsuc 11)
    else if is_err a.task
    then (w4, ptr_err a.task)
    else (w4, pos 0)

-- `stop_worker`: each object is freed and its slot set to NULL. `none`: `kthread_stop` is called on
-- an error pointer.
unfoldable pub stop_worker : Worker → Option Worker
stop_worker w = if is_null w.task then some w else if is_err w.task then none else some cleared

-- Documented: kmalloc and skcipher_request_alloc return NULL or memory, the other two an error
-- pointer or an object.
pub record Documented (a : Answers) : Type 0 where
  pub buf : is_err a.buf ≡ false
  pub req : is_err a.req ≡ false
  pub tfm : is_null a.tfm ≡ false
  pub task : is_null a.task ≡ false

-- A worker that `start_worker` started has its four objects, and `stop_worker` frees them all.
pub stop-start :
    (a : Answers)
    → Documented a
    → is_zero (start_worker a).1 ≡ true
    → ((start_worker a).0 ≡ record { buf = object; tfm = object; req = object; task = object })
      × (stop_worker (start_worker a).0 ≡ some cleared)
unfolding start_worker stop_worker
stop-start a d h = ground arith

-- When `start_worker` fails behind the buffer, `mod_init` goes on all the same; `stop_worker` then
-- keeps the buffer allocated if the thread was not reached, and else passes an error pointer to
-- `kthread_stop`.
pub stop-failed_start :
    (a : Answers)
    → Documented a
    → is_object a.buf ≡ true
    → is_zero (start_worker a).1 ≡ false
    → let w = (start_worker a).0 in
      (is_null w.task ≡ true) × (stop_worker w ≡ some w) × (w.buf ≡ object)
      ⊎ (is_err w.task ≡ true) × (stop_worker w ≡ none)
unfolding start_worker stop_worker
stop-failed_start a d b h = ground arith
