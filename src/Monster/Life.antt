-- ===== src/Monster/Life.antt =====
-- How the monster fares over time.
use linux_kernel_modules.Base.{
  ℕ, zero, suc, ◌+◌, ◌-◌, ◌*◌, ◌%◌, ◌^◌, ◌≤◌, ◌<◌, ◌≡◌, refl, ap, ◌∙◌, List, min, ℤ, pos, negsuc,
  arith,
}
use linux_kernel_modules.Monster.{Monster, sleepy, mood_of, monster_tick, born}

-- Both levels are within 0 and 100, the age fits its `int`, and the mood is the one that they call
-- for.
pub record IsValid (p : Monster) : Type 0 where
  pub hunger : ℕ
  pub energy : ℕ
  pub hunger_is : p.hunger ≡ pos hunger
  pub energy_is : p.energy ≡ pos energy
  pub hunger_in : hunger ≤ 100
  pub energy_in : energy ≤ 100
  pub age_in : p.age < 2 ^ 32
  pub mood_is : p.mood ≡ mood_of p.hunger p.energy

-- Whatever the parameters, the monster is born with levels in range and the mood to match.
pub born-IsValid : (name : List ℕ) (hunger energy : ℤ) → IsValid (born name hunger energy)
unfolding born
born-IsValid name (pos h) (pos e) = record {
  hunger = min h 100;
  energy = min e 100;
  hunger_is = ground arith;
  energy_is = ground arith;
  hunger_in = omega arith;
  energy_in = omega arith;
  age_in = omega arith;
  mood_is = refl;
}
born-IsValid name (negsuc h) (pos e) = record {
  hunger = 0;
  energy = min e 100;
  hunger_is = ground arith;
  energy_is = ground arith;
  hunger_in = omega arith;
  energy_in = omega arith;
  age_in = omega arith;
  mood_is = refl;
}
born-IsValid name (pos h) (negsuc e) = record {
  hunger = min h 100;
  energy = 0;
  hunger_is = ground arith;
  energy_is = ground arith;
  hunger_in = omega arith;
  energy_in = omega arith;
  age_in = omega arith;
  mood_is = refl;
}
born-IsValid name (negsuc h) (negsuc e) = record {
  hunger = 0;
  energy = 0;
  hunger_is = ground arith;
  energy_is = ground arith;
  hunger_in = omega arith;
  energy_in = omega arith;
  age_in = omega arith;
  mood_is = refl;
}

unfoldable pub ticks : ℕ → Monster → Monster
ticks zero p = p
ticks (suc n) p = monster_tick (ticks n p)

-- The levels and the age after `n` ticks.
pub record After (n : ℕ) (p q : Monster) (h e : ℕ) : Type 0 where
  pub hunger : q.hunger ≡ pos (min 100 (h + 10 * n))
  pub energy : q.energy ≡ pos (e - 5 * n)
  pub age : q.age ≡ (p.age + n) % 2 ^ 32
  pub name : q.name ≡ p.name
  pub mood : q.mood ≡ mood_of q.hunger q.energy

tick_levels :
    (p : Monster) (h e : ℕ)
    → p.hunger ≡ pos h
    → p.energy ≡ pos e
    → h ≤ 100
    → e ≤ 100
    → ((monster_tick p).hunger ≡ pos (min 100 (h + 10))) × ((monster_tick p).energy ≡ pos (e - 5))
unfolding monster_tick
tick_levels p h e ph pe hh he = rw (ph, pe) (ground arith, ground arith)

tick_age : (p : Monster) → (monster_tick p).age ≡ (p.age + 1) % 2 ^ 32
unfolding monster_tick
tick_age p = refl

tick_name : (p : Monster) → (monster_tick p).name ≡ p.name
unfolding monster_tick
tick_name p = refl

tick_mood :
    (p : Monster) → (monster_tick p).mood ≡ mood_of (monster_tick p).hunger (monster_tick p).energy
unfolding monster_tick
tick_mood p = refl

-- After `n` ticks a valid monster of hunger `h` and energy `e` has hunger `h + 10 n`, at most 100,
-- energy `e - 5 n`, at least 0, is `n` ticks older, and its mood matches.
pub ticks_lem : (n : ℕ) (p : Monster) (v : IsValid p) → After n p (ticks n p) v.hunger v.energy
unfolding ticks
ticks_lem zero p v = record {
  hunger = v.hunger_is ∙ ap pos (omega (arith, v.hunger_in));
  energy = v.energy_is ∙ ap pos (omega arith);
  age = omega arith;
  name = refl;
  mood = v.mood_is;
}
ticks_lem (suc n) p v =
    let ih = ticks_lem n p v in
    let levels =
      tick_levels (ticks n p) (min 100 (v.hunger + 10 * n)) (v.energy - 5 * n) ih.hunger ih.energy
        (omega arith) (omega (arith, v.energy_in)) in
    record {
      hunger = levels.0 ∙ ap pos (omega arith);
      energy = levels.1 ∙ ap pos (omega arith);
      age = tick_age (ticks n p) ∙ omega (arith, ih.age);
      name = tick_name (ticks n p) ∙ ih.name;
      mood = tick_mood (ticks n p);
    }

-- Nobody feeds the monster: from 20 ticks on it is famished, without energy and sleepy, for ever.
pub ends_sleepy :
    (n : ℕ) (p : Monster)
    → IsValid p
    → 20 ≤ n
    → ((ticks n p).hunger ≡ pos 100) × ((ticks n p).energy ≡ pos 0) × ((ticks n p).mood ≡ sleepy)
unfolding mood_of
ends_sleepy n p v h =
    let a = ticks_lem n p v in
    let famished = a.hunger ∙ ap pos (omega arith) in
    let spent = a.energy ∙ ap pos (omega (arith, v.energy_in)) in
    (famished, spent, a.mood ∙ rw (famished, spent) refl)
