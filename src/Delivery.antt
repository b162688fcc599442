-- ===== src/Delivery.antt =====
-- Deliveries in order, for the devices that may drop what they are given: the event ring of
-- LKM/Keyboard_monitor/kbdmon_chrdev.c, and the ring and the message of gold_device.c and
-- fixed_device.c in LKM/mutex_sleep_ioctl_exercise.
use linux_kernel_modules.Base.{◌≡◌, refl, List, [], ◌∷◌, ◌++◌, append-nil, append_assoc}

-- `InOrder Gives received given`, oldest first: what was received comes, in order, from different
-- things given, each by `Gives`; the others were lost.
pub data InOrder {A : Type 0} (Gives : A → A → Type 0) : List A → List A → Type 0 where
  nothing : InOrder Gives [] []
  lost :
      {received given : List A} (x : A)
      → InOrder Gives received given
      → InOrder Gives received (given ++ (x ∷ []))
  got :
      {received given : List A} (x y : A)
      → Gives x y
      → InOrder Gives received given
      → InOrder Gives (received ++ (y ∷ [])) (given ++ (x ∷ []))

-- All of a list may be lost, or not received yet.
pub InOrder-append :
    {A : Type 0} {Gives : A → A → Type 0} (received given more : List A)
    → InOrder Gives received given
    → InOrder Gives received (given ++ more)
InOrder-append received given [] h = rw append-nil h
InOrder-append {Gives} received given (x ∷ more) h =
    let longer = InOrder-append received (given ++ (x ∷ [])) more (lost x h) in
    rw append_assoc at longer

-- More of what is given is received whole.
pub InOrder-whole :
    {A : Type 0} (received given more : List A)
    → InOrder ◌≡◌ received given
    → InOrder ◌≡◌ (received ++ more) (given ++ more)
InOrder-whole received given [] h = rw (append-nil, append-nil) h
InOrder-whole received given (x ∷ more) h =
    let longer = InOrder-whole (received ++ (x ∷ [])) (given ++ (x ∷ [])) more (got x x refl h) in
    rw (append_assoc, append_assoc) at longer
