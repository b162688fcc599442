-- ===== src/Tests/Monitors.antt =====
-- The life of the keyboard monitors at a concrete run: kbdmon_chrdev.c is refused once, then loaded,
-- connected to two keyboards of which one cannot be opened, and unloaded.
use linux_kernel_modules.Base.{
  ◌≡◌, ◌↔◌, ◌⊎◌, true, false, not, ◌&&◌, ◌||◌, ◌==◌, arith, refl, [], ◌∷◌, pos, negsuc, ℤ, none,
}
use linux_kernel_modules.Kernel.{Env, Call, misc, input_open_device}
use linux_kernel_modules.Tests.{granting, without_handler, kernel}
use linux_kernel_modules.Keyboard.Handle.{
  kbdmon_connect, kbdmon_disconnect, chrdev_init, chrdev_exit,
}
use linux_kernel_modules.Keyboard.Match
use linux_kernel_modules.Keyboard.Match.{subset, ids_of, matches_iff}
use linux_kernel_modules.Keyboard.Drivers.{chrdev}
use linux_kernel_modules.Keyboard.Lifecycle.{
  Monitor, Reach, here, next, load, refuse, plug, unload, holdings, left_behind,
}
use linux_kernel_modules.Keyboard.Lifecycle.Clean.{unloaded_holds_nothing}

abbrev open_refused : Call → ℤ
open_refused input_open_device = negsuc 18
open_refused _ = pos 0

abbrev without_open : Env
without_open = kernel open_refused

abbrev once : Monitor
once = record { loaded = none; linked = []; lost = misc ∷ []; refused = 1 }

once_reached : Reach chrdev once
unfolding kbdmon_connect kbdmon_disconnect chrdev_init chrdev_exit
once_reached =
    next
      (next
        (next
          (next (next here (refuse without_handler refl (refl, refl) refl))
            (load granting refl (refl, refl) refl))
          (plug without_open granting refl (refl, refl)))
        (plug granting granting refl (refl, refl)))
      (unload granting refl)

unloaded_holds_nothing_example : holdings chrdev once ≡ left_behind chrdev 1
unfolding kbdmon_connect kbdmon_disconnect chrdev_init chrdev_exit
unloaded_holds_nothing_example = unloaded_holds_nothing chrdev once once_reached refl

abbrev codes : Match.Codes
codes = record { ev_key = 1; key_a = 30; ev_cnt = 32; key_cnt = 768 }

-- The comparison as it is documented.
abbrev core : Match.Core codes
core = record {
  matches = λ id dev.
      (not id.match_evbit || subset 32 id.evbit dev.evbit)
      && (not id.match_keybit || subset 768 id.keybit dev.keybit);
  matches_lem = λ id dev. refl;
}

-- A mouse has keys, and of them only its left button, of code 272.
abbrev mouse : Match.InputDev
mouse = record { evbit = λ k. k == 1; keybit = λ k. k == 272 }

matches_iff_example :
    (core.matches (ids_of codes Match.chrdev) mouse ≡ true)
    ↔ ((true ≡ true) × ((true ≡ false) ⊎ (false ≡ true)))
matches_iff_example =
    matches_iff codes core mouse Match.chrdev
      (record { first_word = omega arith; type = omega arith; key = omega arith })
