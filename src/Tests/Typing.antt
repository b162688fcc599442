-- ===== src/Tests/Typing.antt =====
-- The theorems on what comes out of the keyboard monitors at concrete runs, with the kernel's codes.
use linux_kernel_modules.Base.{◌≡◌, refl, List, [], ◌∷◌, map, arith, pos, some, true}
use linux_kernel_modules.Keyboard.Logger
use linux_kernel_modules.Keyboard.Logger.Sent
use linux_kernel_modules.Keyboard.Logger.Sent.{sent, waiting}
use linux_kernel_modules.Keyboard.Ring.{KeyEvent, fresh}
use linux_kernel_modules.Keyboard.Ring.Queue.{push}
use linux_kernel_modules.Keyboard.Ring.Demo
use linux_kernel_modules.Keyboard.Ring.Demo.{
  demo, shown, parse_line, numbers, demo_shows_the_newest,
}

abbrev letters : Logger.Codes
letters = record { ev_key = 1; key_a = 30; key_z = 44; key_space = 57 }

-- KEY_A, the space bar and KEY_S, pressed, of which KEY_A is released too, and a whole run of
-- `exfiltrate`. Then KEY_F, and a run in which KEY_S comes behind the NUL, and KEY_A behind the print.
abbrev spying : List Sent.Event
spying =
    Sent.key 1 30 1
    ∷ Sent.key 1 30 0
    ∷ Sent.key 1 57 1
    ∷ Sent.key 1 31 1
    ∷ Sent.timer
    ∷ Sent.timer
    ∷ Sent.timer
    ∷ Sent.key 1 33 1
    ∷ Sent.timer
    ∷ Sent.key 1 31 1
    ∷ Sent.timer
    ∷ Sent.key 1 30 1
    ∷ Sent.timer
    ∷ []

-- The second text ends with a byte of the first one.
sent-spying :
    sent letters spying waiting Logger.fresh
    ≡ (b'a' ∷ b' ' ∷ b'b' ∷ []) ∷ (b'd' ∷ b'b' ∷ b'b' ∷ []) ∷ []
unfolding sent Logger.kbdmon_event Logger.key_to_char Logger.terminate Logger.print Logger.clear
sent-spying = refl

abbrev junk : KeyEvent
junk = record { code = 48879; value = 173 }

-- The program looks before anything is typed; a press and a release follow, with an EV_SYN between.
abbrev session : List Demo.Op
session =
    Demo.round
    ∷ Demo.key 1 30 1
    ∷ Demo.key 0 0 0
    ∷ Demo.round
    ∷ Demo.key 1 30 0
    ∷ Demo.round
    ∷ Demo.round
    ∷ []

demo_shows_the_newest_example :
    map parse_line (demo 1 true junk fresh session) ≡ map numbers (shown 1 [] session)
demo_shows_the_newest_example =
    demo_shows_the_newest 1 session junk
      (omega arith, omega arith, (omega arith, omega arith, (omega arith, omega arith, tt)))

shown-session : map numbers (shown 1 [] session) ≡ some (pos 30, pos 1) ∷ some (pos 30, pos 0) ∷ []
unfolding shown push
shown-session = refl
