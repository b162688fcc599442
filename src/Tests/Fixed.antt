-- ===== src/Tests/Fixed.antt =====
-- The theorems on the fixed device at concrete inputs.
use linux_kernel_modules.Base.{
  ◌≤◌, ◌⊎◌, true, false, arith, none, eagain, einval, ℕ, ◌≡◌, refl, some, List, [], ◌∷◌, ok, fail,
  pos,
}
use linux_kernel_modules.Text.{decimal}
use linux_kernel_modules.Fixed.Stress.{writer_message}
use linux_kernel_modules.Fixed.Stress.Program
use linux_kernel_modules.Fixed.Stress.End.{CanGoOn, HasEnded, stress_ends}
use linux_kernel_modules.Fixed.Device.{read_enter, read_locked, my_write, set_blocking, fresh}
use linux_kernel_modules.Fixed.Laws.{IsValid}
use linux_kernel_modules.Fixed.Mailbox
use linux_kernel_modules.Fixed.Mailbox.{FileOp}
use linux_kernel_modules.Fixed.Refine.{box_of, run, fixed_run_refines}
use linux_kernel_modules.Fixed.Runs.{start, Reach-IsValid}

abbrev pub greeting : List ℕ
greeting = 7 ∷ 8 ∷ 9 ∷ []

fresh-IsValid : IsValid fresh
fresh-IsValid = Reach-IsValid start

abbrev script : List FileOp
script =
    FileOp.read 2
    ∷ FileOp.write greeting
    ∷ FileOp.read 2
    ∷ FileOp.ioctl (set_blocking (pos 0))
    ∷ FileOp.read 1
    ∷ FileOp.ioctl (set_blocking (pos 7))
    ∷ []

fixed_run_refines_example : run fresh script ≡ Mailbox.run (box_of fresh) script
fixed_run_refines_example = fixed_run_refines script fresh fresh-IsValid

run-script :
    Mailbox.run (box_of fresh) script
    ≡ none
      ∷ some ([], ok 3)
      ∷ some (7 ∷ 8 ∷ [], ok 2)
      ∷ some ([], ok 0)
      ∷ some ([], fail eagain)
      ∷ some ([], fail einval)
      ∷ []
unfolding Mailbox.run Mailbox.step
run-script = refl

-- The first writer writes and wakes the readers, and the second reader gets its message.
abbrev first_writer : Program.Writer
first_writer = Program.writer 0

abbrev has_written : Program.Writer
has_written = record first_writer { rounds = 9; waking = true }

abbrev behind_wait : Program.Reader
behind_wait = record { rounds = 9; phase = Program.through true }

abbrev others : List Program.Writer
others = Program.writer 1 ∷ Program.writer 2 ∷ Program.writer 3 ∷ []

abbrev one_read : Program.System
one_read = record {
  dev =
      (read_locked true false 64
        (my_write false 0 (Program.message_of first_writer) fresh).dev).dev;
  writers = record has_written { waking = false } ∷ others;
  readers =
      Program.reader
      ∷ record behind_wait { phase = Program.idle }
      ∷ Program.reader
      ∷ Program.reader
      ∷ [];
  control = Program.start.control;
}

one_read_reached : Program.Run Program.start 4 one_read
unfolding my_write read_locked read_enter writer_message decimal
one_read_reached =
    Program.next
      (Program.next
        (Program.next
          (Program.next Program.here (Program.write [] others first_writer refl refl (omega arith)))
          (Program.begin (Program.reader ∷ []) (Program.reader ∷ Program.reader ∷ []) Program.reader
            refl refl (omega arith)))
        (Program.wake [] others has_written refl refl))
      (Program.take (Program.reader ∷ []) (Program.reader ∷ Program.reader ∷ []) behind_wait true
        refl refl)

stress_ends_example : (4 ≤ 420) × (CanGoOn one_read ⊎ HasEnded one_read)
stress_ends_example = stress_ends one_read_reached
