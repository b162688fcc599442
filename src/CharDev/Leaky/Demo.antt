-- ===== src/CharDev/Leaky/Demo.antt =====
-- LKM/memory_leak/leak_demo.c against the device that it opens: one process writes a secret, a second
-- one a shorter message, and reads the buffer.
use linux_kernel_modules.Base.{
  ℕ, ◌+◌, ◌-◌, ◌≤◌, ◌<◌, ◌≡◌, refl, ap, Option, none, some, List, [], ◌∷◌, ◌++◌, length, drop, min,
  arith, ◌>>=◌, ok, fail, Ret, false, length-append, length-drop,
}
use linux_kernel_modules.CharDev.Leaky.{
  Device, Reading, dev_read, dev_write, target, read-write_leaks, leb-false, take_all,
}

-- "SECRET_PASSWORD_123456".
abbrev pub secret : List ℕ
secret =
    83 ∷ 69 ∷ 67 ∷ 82 ∷ 69 ∷ 84 ∷ 95 ∷ 80 ∷ 65 ∷ 83 ∷ 83 ∷ 87 ∷ 79 ∷ 82 ∷ 68 ∷ 95 ∷ 49 ∷ 50 ∷ 51
    ∷ 52 ∷ 53 ∷ 54 ∷ []

-- "short".
abbrev pub short : List ℕ
short = 115 ∷ 104 ∷ 111 ∷ 114 ∷ 116 ∷ []

-- `write_to_dev`; `none`: the program dies.
unfoldable pub write_to_dev : (heap : Option (List ℕ)) → List ℕ → Device → Option Device
write_to_dev heap msg d =
    let r = dev_write heap 0 msg d in elim r.1 [ ok n ↦ some r.0 | fail e ↦ none ]

-- `read_from_dev` on a file that was just opened: what the device puts into `buf`, of `size` bytes.
unfoldable pub read_from_dev : (size : ℕ) → Device → Option (List ℕ)
read_from_dev size d = elim d.buffer [
  | none ↦ none
  | some b ↦
      let r = dev_read false (size - 1) 0 b d.buffer_size in
      elim r.ret [ ok n ↦ some r.out | fail e ↦ none ]
]

-- `main`, with a buffer of 256 bytes: what the second process reads.
unfoldable pub leak_demo : (heap : Option (List ℕ)) → Device → Option (List ℕ)
unfolding write_to_dev read_from_dev
leak_demo heap d = do
  shared ← write_to_dev heap secret d
  reused ← write_to_dev heap short shared
  read_from_dev 256 reused

-- A message shorter than the buffer overwrites its first bytes, and no more.
write_to_dev-keeps_rest :
    (heap : Option (List ℕ)) (msg old : List ℕ) (d : Device)
    → target heap d ≡ some old
    → length old ≡ d.buffer_size
    → length msg < d.buffer_size
    → write_to_dev heap msg d ≡ some (record d { buffer = some (msg ++ drop (length msg) old) })
unfolding write_to_dev
write_to_dev-keeps_rest heap msg old d e h lt =
    ap (λ (r : Device × Ret). elim r.1 [ ok n ↦ some r.0 | fail e ↦ none ])
      (read-write_leaks heap msg old d e h lt).0

dev_read-whole :
    (b : List ℕ) (n : ℕ)
    → length b ≡ n
    → 0 < n
    → n ≤ 255
    → dev_read false 255 0 b n ≡ record { out = b; offset = n; ret = ok n }
unfolding dev_read
dev_read-whole b n h pos small =
    let whole : min 255 (n - 0) ≡ n = omega arith in
    let sum : 0 + n ≡ n = omega arith in rw (leb-false pos, whole, take_all n b h, sum) refl

read_from_dev-whole :
    (b : List ℕ) (n : ℕ)
    → length b ≡ n
    → 0 < n
    → n ≤ 255
    → read_from_dev 256 (record { buffer = some b; buffer_size = n }) ≡ some b
unfolding read_from_dev
read_from_dev-whole b n h pos small =
    ap (λ (r : Reading). elim r.ret [ ok k ↦ some r.out | fail e ↦ none ])
      (dev_read-whole b n h pos small)

-- Of a buffer longer than the secret, of 255 bytes at most, in a program whose memory never faults:
-- the second process, which wrote "short", reads the secret from its sixth byte on, and behind it
-- what the memory held before anybody wrote.
pub leak_demo_reads_secret :
    (heap : Option (List ℕ)) (old : List ℕ) (d : Device)
    → target heap d ≡ some old
    → length old ≡ d.buffer_size
    → length secret < d.buffer_size
    → d.buffer_size ≤ 255
    → leak_demo heap d ≡ some (short ++ (drop 5 secret ++ drop 22 old))
unfolding leak_demo
leak_demo_reads_secret heap old d e h big small =
    rw
      (
        write_to_dev-keeps_rest heap secret old d e h big,
        write_to_dev-keeps_rest heap short first (record d { buffer = some first }) refl
            first_length (omega arith),
      )
      (read_from_dev-whole (short ++ drop 5 first) d.buffer_size second_length (omega arith) small)
  where
    first : List ℕ
    first = secret ++ drop 22 old

    first_length : length first ≡ d.buffer_size
    first_length = omega (arith, length-append secret (drop 22 old), length-drop 22 old)

    second_length : length (short ++ drop 5 first) ≡ d.buffer_size
    second_length =
        omega (arith, first_length, length-append short (drop 5 first), length-drop 5 first)
