-- ===== src/CharDev/Transfers/Eeprom.antt =====
-- What LKM/i2c_24LC256/i2c_24LC256.c receives from its EEPROM. The device is a parameter: a 24LC256 as
-- its data sheet describes it.
use linux_kernel_modules.Base.{
  ℕ, ◌+◌, ◌*◌, ◌≤◌, ◌≡◌, refl, Bool, true, false, Option, none, some, List, [], ◌∷◌, ◌++◌, arith,
}
use linux_kernel_modules.Kernel.{Env, Done, is_zero}
use linux_kernel_modules.CharDev.Transfers.{
  Transfer, master_send, master_recv, msleep, eeprom_transfers, eeprom_start,
}

-- A 16-bit address, sent as two bytes.
abbrev pub address : (high low : ℕ) → ℕ
address high low = high * 256 + low

-- The bytes kept, the address counter, and whether a write cycle is under way. `transfer` gives the
-- bytes received; `none`: the transfer has failed, and returns a negative error.
pub record Eeprom : Type 1 where
  pub State : Type 0
  pub transfer : Transfer → State → State × Option (List ℕ)
  pub cell : State → ℕ → ℕ
  pub pointer : State → ℕ
  pub busy : State → Bool
  -- A write cycle takes at most 5 ms, and ends with the bytes kept.
  pub pause :
      (ms : ℕ) (s : State)
      → 5 ≤ ms
      → let t = (transfer (msleep ms) s).0 in
        (busy t ≡ false) × (cell t ≡ cell s) × ((transfer (msleep ms) s).1 ≡ some [])
  -- Two bytes of address, then data: when they arrive, the first byte goes to that address.
  pub byte_write :
      (high low x : ℕ) (more out : List ℕ) (s : State)
      → busy s ≡ false
      → (transfer (master_send (high ∷ low ∷ x ∷ more)) s).1 ≡ some out
      → let t = (transfer (master_send (high ∷ low ∷ x ∷ more)) s).0 in
        (cell t (address high low) ≡ x) × (out ≡ [])
  -- An address alone, when it arrives, sets the counter.
  pub set_address :
      (high low : ℕ) (out : List ℕ) (s : State)
      → busy s ≡ false
      → (transfer (master_send (high ∷ low ∷ [])) s).1 ≡ some out
      → let t = (transfer (master_send (high ∷ low ∷ [])) s).0 in
        (pointer t ≡ address high low) × (cell t ≡ cell s) × (busy t ≡ false) × (out ≡ [])
  -- A read that does not fail gives the byte under the counter.
  pub current_read :
      (out : List ℕ) (s : State)
      → busy s ≡ false
      → (transfer (master_recv 1) s).1 ≡ some out
      → out ≡ cell s (pointer s) ∷ []

abbrev pub arrived : Option (List ℕ) → List ℕ
arrived none = []
arrived (some out) = out

-- The bytes received over a list of transfers; the module looks at no result, and goes on behind a
-- transfer that has failed.
unfoldable pub received : (e : Eeprom) → List Transfer → e.State → List ℕ
received e [] s = []
received e (t ∷ ts) s = arrived (e.transfer t s).1 ++ received e ts (e.transfer t s).0

-- None of the transfers fails.
unfoldable pub AllSucceed : (e : Eeprom) → List Transfer → e.State → Type 0
AllSucceed e [] s = Unit {0}
AllSucceed e (t ∷ ts) s =
    ((out : List ℕ) × ((e.transfer t s).1 ≡ some out)) × AllSucceed e ts (e.transfer t s).0

load_transfers :
    (env : Env) (d : Done) (ts : List Transfer)
    → eeprom_start env ≡ some (d, ts)
    → is_zero d.ret ≡ true
    → ts ≡ eeprom_transfers
unfolding eeprom_start
load_transfers env d ts e loaded = ground arith

read_back :
    (e : Eeprom) (s : e.State)
    → e.busy s ≡ false
    → AllSucceed e eeprom_transfers s
    → received e eeprom_transfers s ≡ 80 ∷ []
unfolding received AllSucceed
read_back e s rest ((o1, sent), ((o2, slept), ((o3, addressed), ((o4, got), none_left)))) =
    let (kept, no_bytes) = e.byte_write 0 0 80 (81 ∷ []) o1 s rest sent in
    let s1 : e.State = (e.transfer (master_send (0 ∷ 0 ∷ 80 ∷ 81 ∷ [])) s).0 in
    let (ready, same, none_yet) = e.pause 5 s1 (omega arith) in
    let s2 : e.State = (e.transfer (msleep 5) s1).0 in
    let (points, still, idle, none_now) = e.set_address 0 0 o3 s2 ready addressed in
    let s3 : e.State = (e.transfer (master_send (0 ∷ 0 ∷ [])) s2).0 in
    let byte = e.current_read o4 s3 idle got in
    rw (sent, no_bytes, none_yet, addressed, none_now, got, byte, points, still, same, kept) refl

-- A load that returns 0, of a module whose EEPROM is at rest: where none of its transfers fails, which
-- it does not test, it receives the byte 0x50 that it wrote to address 0.
pub load_reads_back :
    (e : Eeprom) (env : Env) (d : Done) (ts : List Transfer) (s : e.State)
    → eeprom_start env ≡ some (d, ts)
    → is_zero d.ret ≡ true
    → e.busy s ≡ false
    → AllSucceed e ts s
    → received e ts s ≡ 80 ∷ []
load_reads_back e env d ts s started loaded rest fine =
    let all = load_transfers env d ts started loaded in rw all (read_back e s rest (rw all at fine))
