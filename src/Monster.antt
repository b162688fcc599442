-- ===== src/Monster.antt =====
-- LKM/Pocket_monster/pocket_monster.c: the state behind /proc/kernel_monster and its periodic tick.
pub mod Life
pub mod Show
use linux_kernel_modules.Base.{
  ℕ, ◌+◌, ◌%◌, ◌^◌, List, Bool, if◌then◌else◌, take, ℤ, pos, negsuc, ltb_ℤ, ◌+ℤ◌, ◌-ℤ◌,
}

-- The four texts of `mood`.
pub data Mood : Type 0 where
  sleepy angry hungry happy : Mood

-- `struct kernel_monster`. `age` is the bit pattern of an `int`. `hunger` and `energy` are `int`s
-- that stay within 0 and 100, so that no sum of theirs overflows; `name` is without its NUL.
pub record Monster : Type 0 where
  pub name : List ℕ
  pub hunger : ℤ
  pub energy : ℤ
  pub age : ℕ
  pub mood : Mood

unfoldable pub clamp_value : (value lo hi : ℤ) → ℤ
clamp_value value lo hi = if ltb_ℤ value lo then lo else if ltb_ℤ hi value then hi else value

-- What `update_mood` writes.
unfoldable pub mood_of : (hunger energy : ℤ) → Mood
mood_of hunger energy =
    if ltb_ℤ energy (pos 20)
    then sleepy
    else if ltb_ℤ (pos 80) hunger
    then angry
    else if ltb_ℤ (pos 50) hunger
    then hungry
    else happy

unfoldable pub update_mood : Monster → Monster
unfolding mood_of
update_mood p = record p { mood = mood_of p.hunger p.energy }

-- `monster_tick`, which `monster_work_handler` runs once a second.
unfoldable pub monster_tick : Monster → Monster
unfolding clamp_value update_mood ◌+ℤ◌ ◌-ℤ◌
monster_tick p = update_mood (record p {
  age = (p.age + 1) % 2 ^ 32;
  hunger = clamp_value (p.hunger +ℤ pos 10) (pos 0) (pos 100);
  energy = clamp_value (p.energy -ℤ pos 5) (pos 0) (pos 100);
})

-- The state that `kernel_monster_init` sets up from the module's parameters: `strscpy` keeps 31
-- bytes of the name.
unfoldable pub born : (name : List ℕ) (hunger energy : ℤ) → Monster
unfolding clamp_value update_mood
born name hunger energy = update_mood (record {
  name = take 31 name;
  hunger = clamp_value hunger (pos 0) (pos 100);
  energy = clamp_value energy (pos 0) (pos 100);
  age = 0;
  mood = happy;
})

-- The whole of `kernel_monster_init`: the state, whether the tick is scheduled, and the return
-- value (-ENOMEM if the /proc entry cannot be made).
unfoldable pub kernel_monster_init :
    (proc_created : Bool) (name : List ℕ) (hunger energy : ℤ) → Monster × Bool × ℤ
unfolding born
kernel_monster_init proc_created name hunger energy =
    if proc_created
    then (born name hunger energy, Bool.true, pos 0)
    else (born name hunger energy, Bool.false, negsuc 11)

-- `kernel_monster_exit`: whether the /proc entry is left, and the tick scheduled.
unfoldable pub kernel_monster_exit : (entry scheduled : Bool) → Bool × Bool
kernel_monster_exit entry scheduled = (if entry then Bool.false else entry, Bool.false)
