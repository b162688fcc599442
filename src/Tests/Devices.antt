-- ===== src/Tests/Devices.antt =====
-- The theorems on the modules with a device or a clock as a parameter: a 24LC256 and a clock that
-- behave as documented, and concrete runs with them.
use linux_kernel_modules.Base.{
  ℕ, ◌+◌, ◌-◌, ◌%◌, ◌^◌, ◌≤◌, ◌<◌, ◌≡◌, refl, Bool, true, false, Option, none, some, List, [], ◌∷◌,
  ◌++◌, ◌==◌, ◌&&◌, ltb, leb, if◌then◌else◌, map, pos, arith, replicate,
}
use linux_kernel_modules.Kernel.{is_zero}
use linux_kernel_modules.Tests.{granting}
use linux_kernel_modules.CharDev.Modules.{eeprom_init}
use linux_kernel_modules.CharDev.Transfers.{
  Transfer, master_send, master_recv, msleep, eeprom_transfers, eeprom_start,
}
use linux_kernel_modules.CharDev.Transfers.Eeprom
use linux_kernel_modules.CharDev.Transfers.Eeprom.{address, received, load_reads_back}
use linux_kernel_modules.Crypto.Clock
use linux_kernel_modules.Crypto.Clock.{Timed, tick_at, turn_at, word, score_on_time}
use linux_kernel_modules.Crypto.Sampling.{Tick, sampling, started}
use linux_kernel_modules.Crypto.Score.{compute_score}
use linux_kernel_modules.Crypto.Control

record Chip : Type 0 where
  cells : ℕ → ℕ
  counter : ℕ
  writing : Bool

-- A write stores its first byte; the page behind it is left out.
abbrev transfer : Transfer → Chip → Chip × Option (List ℕ)
transfer (master_send (high ∷ low ∷ x ∷ more)) s = (
  record s { cells = λ i. if i == address high low then x else s.cells i; writing = true },
  some [],
)
transfer (master_send (high ∷ low ∷ [])) s = (record s { counter = address high low }, some [])
transfer (master_recv count) s = (s, some (s.cells s.counter ∷ []))
transfer (msleep ms) s = (record s { writing = s.writing && ltb ms 5 }, some [])
transfer _ s = (s, none)

at_rest : (ms : ℕ) (s : Chip) → 5 ≤ ms → (s.writing && ltb ms 5) ≡ false
at_rest ms s h = ground arith

stored_here : (i x : ℕ) (cells : ℕ → ℕ) → (if i == i then x else cells i) ≡ x
stored_here i x cells = ground arith

sent_nothing : {out : List ℕ} → some [] ≡ some out → out ≡ []
sent_nothing e = cc

got_byte :
    (s : Chip) (out : List ℕ)
    → some (s.cells s.counter ∷ []) ≡ some out
    → out ≡ s.cells s.counter ∷ []
got_byte s out e = cc

abbrev chip : Eeprom.Eeprom
chip = record {
  State = Chip;
  transfer = transfer;
  cell = λ s. s.cells;
  pointer = λ s. s.counter;
  busy = λ s. s.writing;
  pause = λ ms s h. (at_rest ms s h, refl, refl);
  byte_write =
      λ high low x more out s h e. (stored_here (address high low) x s.cells, sent_nothing e);
  set_address = λ high low out s h e. (refl, refl, h, sent_nothing e);
  current_read = λ out s h e. got_byte s out e;
}

abbrev blank : Chip
blank = record { cells = λ i. 255; counter = 7; writing = false }

eeprom_started : eeprom_start granting ≡ some (eeprom_init granting, eeprom_transfers)
unfolding eeprom_start eeprom_init
eeprom_started = refl

returned_zero : is_zero (eeprom_init granting).ret ≡ true
unfolding eeprom_init
returned_zero = refl

all_succeed : Eeprom.AllSucceed chip eeprom_transfers blank
unfolding Eeprom.AllSucceed
all_succeed = (([], refl), (([], refl), (([], refl), ((80 ∷ [], refl), tt))))

load_reads_back_example : received chip eeprom_transfers blank ≡ 80 ∷ []
load_reads_back_example =
    load_reads_back chip granting (eeprom_init granting) eeprom_transfers blank eeprom_started
      returned_zero refl all_succeed

-- `(long)(b - a) < 0` on 32 bits.
abbrev before_as_long : ℕ → ℕ → Bool
before_as_long a b = leb (2 ^ 31) ((b + word - a) % word)

far_behind : (b d : ℕ) → b < word → 0 < d → d < 2 ^ 31 → before_as_long ((b + d) % word) b ≡ true
far_behind b d below some_time half =
    let far : 2 ^ 31 ≤ (b + word - (b + d) % word) % word = omega arith in ground arith

close_ahead : (b d : ℕ) → b < word → d < 2 ^ 31 → before_as_long b ((b + d) % word) ≡ false
close_ahead b d below half =
    let close : ((b + d) % word + word - b) % word < 2 ^ 31 = omega arith in ground arith

abbrev clock : Clock.Clock
clock = record {
  hz = 100;
  time_after = before_as_long;
  later = far_behind;
  not_later = close_ahead;
  short = omega arith;
}

-- Four zones at 20 degrees.
abbrev cool : ℕ → Tick
cool ops = record { ops = ops; zones = replicate 4 (some (some (pos 20000))) }

-- `jiffies` wraps around 3 s after the start; the loop looks after 60 s, when the time is not over
-- yet, and after 60.04 s.
abbrev first_minute : List Timed
first_minute = tick_at (cool 1) ∷ turn_at 400 ∷ tick_at (cool 900) ∷ turn_at 6000 ∷ []

abbrev behind_it : List Timed
behind_it = tick_at (cool 1000) ∷ turn_at 6100 ∷ []

abbrev near_the_end : ℕ
near_the_end = word - 300

abbrev end : Control.Bench
end =
    Control.control
      (map (Clock.seen clock near_the_end) (first_minute ++ (turn_at 6004 ∷ behind_it)))
      Control.launched

score_on_time_example :
    (end.ctx ≡ sampling (cool 1 ∷ cool 900 ∷ []) started)
    × (end.score ≡ some (compute_score (sampling (cool 1 ∷ cool 900 ∷ []) started)))
    × (end.armed ≡ false)
score_on_time_example =
    score_on_time clock near_the_end first_minute behind_it 6004 (omega arith, (omega arith, tt))
      (omega arith) (omega arith)
