-- ===== src/Tests/Texts.antt =====
-- The texts that the modules show, at concrete states.
use linux_kernel_modules.Base.{◌≡◌, ◌↔◌, refl, true, some, [], ◌∷◌, ◌&&◌, arith, pos, not}
use linux_kernel_modules.Kernel.{object, err, is_err}
use linux_kernel_modules.Crypto.Worker.{Answers}
use linux_kernel_modules.Crypto.Load.{
  Replies, mod_init, mod_exit, removed, cleared_all, all_complete, mod_exit_iff,
}
use linux_kernel_modules.Monster.{Monster, happy, mood_of}
use linux_kernel_modules.Monster.Life.{IsValid, ticks}
use linux_kernel_modules.Monster.Show.{
  monster_proc_show, parse_monster, as_int, mood_text, shown_after_ticks,
}

abbrev poupoule : Monster
poupoule = record {
  name = 80 ∷ 111 ∷ 117 ∷ [];
  hunger = pos 20;
  energy = pos 90;
  age = 0;
  mood = happy;
}

poupoule-IsValid : IsValid poupoule
unfolding mood_of
poupoule-IsValid = record {
  hunger = 20;
  energy = 90;
  hunger_is = refl;
  energy_is = refl;
  hunger_in = omega arith;
  energy_in = omega arith;
  age_in = omega arith;
  mood_is = refl;
}

shown_after_ticks_example :
    parse_monster (monster_proc_show (ticks 3 poupoule))
    ≡ some (record {
      name = poupoule.name;
      age = pos 3;
      hunger = pos 50;
      energy = pos 75;
      mood = mood_text happy;
    })
unfolding as_int mood_of poupoule-IsValid
shown_after_ticks_example = shown_after_ticks 3 poupoule poupoule-IsValid (refl, (refl, (refl, tt)))

abbrev granted : Answers
granted = record { buf = object; tfm = object; req = object; task = object }

abbrev no_cipher : Answers
no_cipher = record { buf = object; tfm = err 1; req = object; task = object }

-- The cipher of the last worker cannot be had.
abbrev replies : Replies
replies = record {
  dir = object;
  file = object;
  workers = granted ∷ granted ∷ granted ∷ no_cipher ∷ [];
  ctrl = object;
}

mod_exit_iff_example :
    ((mod_init replies).1 ≡ pos 0)
    × ((mod_exit (mod_init replies).0 ≡ some (removed (cleared_all replies.workers)))
        ↔ ((not (is_err replies.ctrl) && all_complete replies.workers) ≡ true))
mod_exit_iff_example = mod_exit_iff replies refl refl (
  record { buf = refl; req = refl; tfm = refl; task = refl },
  (
    record { buf = refl; req = refl; tfm = refl; task = refl },
    (
      record { buf = refl; req = refl; tfm = refl; task = refl },
      (record { buf = refl; req = refl; tfm = refl; task = refl }, tt),
    ),
  ),
)
