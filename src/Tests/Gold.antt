-- ===== src/Tests/Gold.antt =====
-- The theorems on the gold device at concrete inputs.
use linux_kernel_modules.Base.{
  update, ◌≡◌, refl, true, false, List, [], ◌∷◌, ◌++◌, arith, ok, replicate, ◌↔◌,
}
use linux_kernel_modules.Gold.Device.{
  GoldDev, FileCtx, Signals, reset, get_bufsize, fresh, gold_read, gold_write,
}
use linux_kernel_modules.Gold.Inv.{IsValid, contents}
use linux_kernel_modules.Gold.Queue
use linux_kernel_modules.Gold.Queue.{FileOp, read, write, ioctl}
use linux_kernel_modules.Gold.Refine.{run, gold_run_refines, calm}
use linux_kernel_modules.Gold.Reading.{ReadSpec, gold_read-ReadSpec}
use linux_kernel_modules.Gold.Writing.{WriteSpec, gold_write-WriteSpec}
use mathlib.Core.Quot
use linux_kernel_modules.Gold.View.{View, Indistinguishable, Bounded, alike_iff}
use linux_kernel_modules.Gold.Threads.{
  System, Request, writing, start, after, enter, locked, idle, lock,
}

-- A ring with 7, 8 and 9, round the end of the buffer.
abbrev wrapped : GoldDev
wrapped = record { buffer = 8 ∷ 9 ∷ (replicate 253 0 ++ (7 ∷ [])); head = 2; tail = 255; size = 3 }

wrapped-IsValid : IsValid wrapped
wrapped-IsValid = record {
  storage = refl;
  tail_in = omega arith;
  size_in = omega arith;
  head_at = refl;
}

contents-wrapped : contents wrapped ≡ 7 ∷ 8 ∷ 9 ∷ []
contents-wrapped = refl

abbrev script : List FileOp
script = read 2 ∷ write (4 ∷ 5 ∷ []) ∷ ioctl get_bufsize ∷ read 9 ∷ read 1 ∷ ioctl reset ∷ []

gold_run_refines_example : run true wrapped script ≡ Queue.run true (contents wrapped) script
gold_run_refines_example = gold_run_refines true script wrapped wrapped-IsValid

-- What the queue gives for calls of this kind.
run-script :
    Queue.run true (contents wrapped) (read 2 ∷ write (4 ∷ 5 ∷ []) ∷ read 9 ∷ [])
    ≡ (7 ∷ 8 ∷ [], ok 2) ∷ ([], ok 2) ∷ (9 ∷ 4 ∷ 5 ∷ [], ok 3) ∷ []
unfolding Queue.run Queue.step
run-script = refl

abbrev blocking : FileCtx
blocking = record { nonblocking = false }

abbrev quiet : Signals
quiet = record { wait = false; lock = false }

gold_read-ReadSpec_example :
    ReadSpec blocking quiet calm 2 wrapped (gold_read blocking quiet calm 2 wrapped)
gold_read-ReadSpec_example = gold_read-ReadSpec blocking quiet calm 2 wrapped wrapped-IsValid

gold_write-WriteSpec_example :
    WriteSpec blocking quiet calm
      (4 ∷ 5 ∷ [])
      wrapped
      (gold_write blocking quiet calm (4 ∷ 5 ∷ []) wrapped)
gold_write-WriteSpec_example =
    gold_write-WriteSpec blocking quiet calm (4 ∷ 5 ∷ []) wrapped wrapped-IsValid

-- Process 0 is about to take the mutex, to write two bytes.
abbrev greeting : Request
greeting = writing true (4 ∷ 5 ∷ [])

abbrev called : System
called = record start { pc = update start.pc 0 (after greeting (enter false greeting fresh)) }

abbrev written : System
written = record (locked calm greeting called) { pc = update called.pc 0 idle }

-- The same bytes at the beginning of the buffer, with others behind them.
abbrev settled : GoldDev
settled = record { buffer = 7 ∷ 8 ∷ 9 ∷ replicate 253 1; head = 3; tail = 0; size = 3 }

settled-IsValid : IsValid settled
settled-IsValid = record {
  storage = refl;
  tail_in = omega arith;
  size_in = omega arith;
  head_at = refl;
}

alike_iff_example : Indistinguishable wrapped settled ↔ (contents wrapped ≡ contents settled)
alike_iff_example = alike_iff wrapped settled wrapped-IsValid settled-IsValid

abbrev three : Bounded
three = (7 ∷ 8 ∷ 9 ∷ [], omega arith)

abbrev seen_wrapped : View
seen_wrapped = Quot.mk (wrapped, wrapped-IsValid)
