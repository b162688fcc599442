-- ===== src/Tests/Clients.antt =====
-- The programs for the user's side at concrete devices.
use linux_kernel_modules.Base.{
  ℕ, ◌≡◌, ◌⊎◌, ◌++◌, refl, true, false, none, some, List, [], ◌∷◌, arith, replicate, drop, update,
}
use linux_kernel_modules.CharDev.Leaky
use linux_kernel_modules.CharDev.Leaky.{Device, target}
use linux_kernel_modules.CharDev.Leaky.Demo.{leak_demo, secret, short, leak_demo_reads_secret}
use linux_kernel_modules.CharDev.Message.Exclusive
use linux_kernel_modules.CharDev.Message.Exclusive.{
  outside, opened, wrote, received, open_device, write_line, read_line, close_device, own_line,
}
use linux_kernel_modules.CharDev.Message
use linux_kernel_modules.CharDev.Message.{driver_write, mutex_write, driver_open, driver_close}
use linux_kernel_modules.CharDev.Message.Client.{rwtodev, rwtodev_mutex, rwtodev_echo}
use linux_kernel_modules.Fixed.Device.{fresh, read_locked, my_write}
use linux_kernel_modules.Fixed.Stress
use linux_kernel_modules.Fixed.Stress.{
  writer_message, corruption, max_msg, writer_thread, no_corruption,
}

-- A buffer of 24 bytes that kmalloc gave with old bytes in it.
abbrev pub old : List ℕ
old = replicate 24 7

abbrev leaky : Leaky.Device
leaky = record { buffer = none; buffer_size = 24 }

leak_demo_reads_secret_example :
    leak_demo (some old) leaky ≡ some (short ++ (drop 5 secret ++ drop 22 old))
leak_demo_reads_secret_example =
    leak_demo_reads_secret (some old) old leaky refl refl (omega arith) (omega arith)

-- A line that is typed and ended, with more behind it.
abbrev input : List ℕ
input = short ++ (10 ∷ b'x' ∷ [])

rwtodev_echo_example :
    (rwtodev input Message.fresh ≡ some (short, (driver_write 0 short Message.fresh).0))
    × (rwtodev_mutex input false Message.fresh
        ≡ some (short, (mutex_write 0 short Message.fresh).0, false))
    × (rwtodev_mutex input true Message.fresh ≡ none)
rwtodev_echo_example = rwtodev_echo input Message.fresh (omega arith) (omega arith)

-- Two writers, of which the second overwrites the message of the first.
no_corruption_example :
    let d =
      (my_write false 0
        (writer_message 2 0)
        (my_write false 0 (writer_message 1 9) fresh).dev).dev in
    let o = read_locked true false max_msg d in
    (corruption o.ret o.out ≡ false)
    × ((o.out ≡ []) ⊎ (id : ℕ) × (i : ℕ) × (o.out ≡ writer_message id i))
no_corruption_example =
    no_corruption _ true
      (Stress.next (Stress.next Stress.start (writer_thread false 1 9)) (writer_thread false 2 0))

-- Process 4 has run the program to its read; process 1 has run it before.
abbrev first_done : Exclusive.System
first_done = record {
  dev = (mutex_write 0 secret Message.fresh).0;
  taken = false;
  pc =
      update
        (update (update (update (λ i. outside) 1 opened) 1 (wrote secret)) 1
          (received secret secret))
        1 outside;
}

abbrev second_reads : Exclusive.System
second_reads = record {
  dev = (mutex_write 0 short first_done.dev).0;
  taken = true;
  pc = update (update (update first_done.pc 4 opened) 4 (wrote short)) 4 (received short short);
}

both_ran : Exclusive.Reach second_reads
unfolding driver_open driver_close Message.driver_read mutex_write
both_ran =
    Exclusive.next
      (Exclusive.next
        (Exclusive.next
          (Exclusive.next
            (Exclusive.next
              (Exclusive.next (Exclusive.next Exclusive.here (open_device 1 true refl refl))
                (write_line 1 secret refl (omega arith)))
              (read_line 1 secret refl))
            (close_device 1 secret secret refl))
          (open_device 4 true refl refl))
        (write_line 4 short refl (omega arith)))
      (read_line 4 short refl)

abbrev second : ℕ
second = 4

own_line_example : (short ≡ short) × (second ≡ second)
own_line_example = own_line second second short short both_ran refl refl
