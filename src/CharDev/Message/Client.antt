-- ===== src/CharDev/Message/Client.antt =====
-- The programs rwtodev.c of LKM/chrdev_read_write and LKM/chrdev_mutex, on their devices: a line is
-- written and read back. The memory of the program can be read and written, and no signal arrives.
use linux_kernel_modules.Base.{
  ℕ, ◌-◌, ◌≤◌, ◌<◌, ◌==◌, ◌&&◌, [], ◌∷◌, ◌≡◌, refl, ap, ◌∙◌, Bool, true, false, Option, none, some,
  List, ◌>>=◌, length, min, arith, ltb, if◌then◌else◌,
}
use linux_kernel_modules.Text.Decimal.{take-long}
use linux_kernel_modules.CharDev.Message.{
  Device, buf_size, driver_read, mutex_read, driver_write, mutex_write, driver_open, driver_close,
  driver_read-driver_write,
}

-- BUFFER_LENGTH.
abbrev pub buffer_length : ℕ
buffer_length = 256

-- The bytes before the first one that is `x`.
abbrev pub until : (x : ℕ) → List ℕ → List ℕ
until x [] = []
until x (y ∷ ys) = if y == x then [] else y ∷ until x ys

-- The line that `%[^\n]` matches.
abbrev pub line_of : (input : List ℕ) → List ℕ
line_of input = until 10 input

-- `scanf("%[^\n]%*c", stringToSend)`, and the bytes of `stringToSend` up to the NUL that `strlen` finds;
-- `none`: an empty line, which does not match and leaves `stringToSend` as it is, uninitialised, or
-- a line that with its NUL runs past the end.
abbrev pub typed : (input : List ℕ) → Option (List ℕ)
typed input =
    let line = line_of input in
    if ltb 0 (length line) && ltb (length line) buffer_length then some (until 0 line) else none

-- rwtodev.c of chrdev_read_write: what the second read puts into `receive`, and the device.
unfoldable pub rwtodev : (input : List ℕ) → Device → Option (List ℕ × Device)
rwtodev input d = do
  sent ← typed input
  let d1 = (driver_write 0 sent d).0
  some ((driver_read 0 buffer_length d1).0, d1)

-- rwtodev.c of chrdev_mutex: `taken` is the mutex of the module. What `receive` holds, the device,
-- and the mutex; `none` also where `open` sleeps.
unfoldable pub rwtodev_mutex :
    (input : List ℕ) → (taken : Bool) → Device → Option (List ℕ × Device × Bool)
rwtodev_mutex input taken d = do
  opened ← driver_open false taken
  sent ← typed input
  let d1 = (mutex_write 0 sent d).0
  some ((mutex_read 0 buffer_length d1).0, d1, (driver_close opened.0).0)

length-until : (x : ℕ) (ys : List ℕ) → length (until x ys) ≤ length ys
length-until x [] = omega arith
length-until x (y ∷ ys) = ground (arith, length-until x ys)

typed-some :
    (input : List ℕ)
    → 0 < length (line_of input)
    → length (line_of input) ≤ 255
    → typed input ≡ some (until 0 (line_of input))
typed-some input some_bytes h =
    let fits : (ltb 0 (length (line_of input)) && ltb (length (line_of input)) 256) ≡ true =
      ground arith in
    rw fits refl

read_back :
    (line : List ℕ) (d : Device)
    → length line ≤ 255
    → (driver_read 0 buffer_length (driver_write 0 line d).0).0 ≡ line
read_back line d h =
    ap (λ (r : List ℕ × ℕ). r.0) (driver_read-driver_write line buffer_length d)
    ∙ take-long (min buffer_length (min (length line) buf_size)) line (omega arith)

-- Without a fault the two modules write alike.
mutex_write-whole : (src : List ℕ) (d : Device) → mutex_write 0 src d ≡ driver_write 0 src d
unfolding mutex_write driver_write
mutex_write-whole src d =
    let all : min (length src) buf_size - 0 ≡ min (length src) buf_size = omega arith in rw all refl

-- The same for read_write_mutex.c.
pub mutex_read_back :
    (line : List ℕ) (d : Device)
    → length line ≤ 255
    → (driver_read 0 buffer_length (mutex_write 0 line d).0).0 ≡ line
mutex_read_back line d h =
    ap (λ (w : Device × ℕ). (driver_read 0 buffer_length w.0).0) (mutex_write-whole line d)
    ∙ read_back line d h

-- Without signals and faults, where the first line of the input has 1 to 255 bytes: what stands in it
-- before the first NUL, the whole line where it has none, comes back from both devices, whatever
-- they held before; the second program sleeps while another process has the mutex, and leaves it
-- free.
pub rwtodev_echo :
    (input : List ℕ) (d : Device)
    → 0 < length (line_of input)
    → length (line_of input) ≤ 255
    → let sent = until 0 (line_of input) in
      (rwtodev input d ≡ some (sent, (driver_write 0 sent d).0))
      × (rwtodev_mutex input false d ≡ some (sent, (mutex_write 0 sent d).0, false))
      × (rwtodev_mutex input true d ≡ none)
unfolding rwtodev rwtodev_mutex driver_open driver_close
rwtodev_echo input d some_bytes h =
    let sent : List ℕ = until 0 (line_of input) in
    let short : length sent ≤ 255 = omega (arith, length-until 0 (line_of input)) in
    (
      rw (typed-some input some_bytes h)
          (ap (λ l. some (l, (driver_write 0 sent d).0)) (read_back sent d short)),
      rw (typed-some input some_bytes h)
          (ap (λ l. some (l, (mutex_write 0 sent d).0, false)) (mutex_read_back sent d short)),
      refl,
    )
