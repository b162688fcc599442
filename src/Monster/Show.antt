-- ===== src/Monster/Show.antt =====
-- /proc/kernel_monster of LKM/Pocket_monster/pocket_monster.c: `monster_proc_show`, and what a reader
-- makes of its text.
use linux_kernel_modules.Base.{
  ℕ, ◌+◌, ◌-◌, ◌*◌, ◌%◌, ◌^◌, ◌<◌, min, ◌≡◌, refl, ap, ◌∙◌, false, Option, some, List, [], ◌∷◌,
  ◌++◌, ◌==◌, ltb, if◌then◌else◌, ℤ, pos, negsuc, arith, ◌>>=◌, Bool-cases, inl, inr,
}
use linux_kernel_modules.Text.{decimal, expect, number_after}
use linux_kernel_modules.Text.Decimal.{Shown, number_after-decimal}
use linux_kernel_modules.Monster.Life.{IsValid, ticks, ticks_lem}
use linux_kernel_modules.Monster.{mood_of, Monster, Mood, sleepy, angry, hungry, happy}

-- "name: ", newline and "age: ", "hunger: ", "energy: ", "mood: ".
abbrev pub name_label : List ℕ
name_label = 110 ∷ 97 ∷ 109 ∷ 101 ∷ 58 ∷ 32 ∷ []

abbrev pub age_label : List ℕ
age_label = 10 ∷ 97 ∷ 103 ∷ 101 ∷ 58 ∷ 32 ∷ []

abbrev pub hunger_label : List ℕ
hunger_label = 10 ∷ 104 ∷ 117 ∷ 110 ∷ 103 ∷ 101 ∷ 114 ∷ 58 ∷ 32 ∷ []

abbrev pub energy_label : List ℕ
energy_label = 10 ∷ 101 ∷ 110 ∷ 101 ∷ 114 ∷ 103 ∷ 121 ∷ 58 ∷ 32 ∷ []

abbrev pub mood_label : List ℕ
mood_label = 10 ∷ 109 ∷ 111 ∷ 111 ∷ 100 ∷ 58 ∷ 32 ∷ []

-- The texts of `update_mood`.
abbrev pub mood_text : Mood → List ℕ
mood_text sleepy = 115 ∷ 108 ∷ 101 ∷ 101 ∷ 112 ∷ 121 ∷ []
mood_text angry = 97 ∷ 110 ∷ 103 ∷ 114 ∷ 121 ∷ []
mood_text hungry = 104 ∷ 117 ∷ 110 ∷ 103 ∷ 114 ∷ 121 ∷ []
mood_text happy = 104 ∷ 97 ∷ 112 ∷ 112 ∷ 121 ∷ []

-- "%d" of the bit pattern of an `int`.
unfoldable pub as_int : ℕ → ℤ
as_int n = if ltb n (2 ^ 31) then pos n else negsuc (2 ^ 32 - 1 - n)

unfoldable pub monster_proc_show : Monster → List ℕ
monster_proc_show m =
    let last = mood_label ++ (mood_text m.mood ++ (10 ∷ [])) in
    let energies = energy_label ++ decimal m.energy last in
    let hungers = hunger_label ++ decimal m.hunger energies in
    name_label ++ (m.name ++ (age_label ++ decimal (as_int m.age) hungers))

-- A line, and what is behind it from its newline on.
unfoldable pub line : List ℕ → List ℕ × List ℕ
line [] = ([], [])
line (c ∷ cs) = let rest = line cs in if c == 10 then ([], c ∷ cs) else (c ∷ rest.0, rest.1)

-- What a reader learns: the name, the three numbers, and the last line.
pub record Portrait : Type 0 where
  pub name : List ℕ
  pub age : ℤ
  pub hunger : ℤ
  pub energy : ℤ
  pub mood : List ℕ

-- The lines behind the name.
abbrev pub parse_levels : List ℕ × List ℕ → Option Portrait
parse_levels named = do
  age ← number_after age_label named.1
  hunger ← number_after hunger_label age.1
  energy ← number_after energy_label hunger.1
  mood ← expect mood_label energy.1
  some (record {
    name = named.0;
    age = age.0;
    hunger = hunger.0;
    energy = energy.0;
    mood = (line mood).0;
  })

unfoldable pub parse_monster : List ℕ → Option Portrait
parse_monster text = do named ← expect name_label text; parse_levels (line named)

abbrev pub OneLine : List ℕ → Type 0
OneLine [] = Unit {0}
OneLine (c ∷ cs) = ((c == 10) ≡ false) × OneLine cs

line-append : (text rest : List ℕ) → OneLine text → line (text ++ (10 ∷ rest)) ≡ (text, 10 ∷ rest)
unfolding line
line-append [] rest h = refl
line-append (c ∷ cs) rest (h, hs) = rw (h, line-append cs rest hs) refl

as_int-Shown : (n : ℕ) → n < 2 ^ 32 → Shown (as_int n)
unfolding as_int
as_int-Shown n h = elim (Bool-cases (ltb n (2 ^ 31))) [
  | inl small ↦ rw small (omega arith)
  | inr big ↦ rw big (omega arith)
]

mood_text-OneLine : (m : Mood) → OneLine (mood_text m)
mood_text-OneLine sleepy = (refl, (refl, (refl, (refl, (refl, (refl, tt))))))
mood_text-OneLine angry = (refl, (refl, (refl, (refl, (refl, tt)))))
mood_text-OneLine hungry = (refl, (refl, (refl, (refl, (refl, (refl, tt))))))
mood_text-OneLine happy = (refl, (refl, (refl, (refl, (refl, tt)))))

parse_monster-monster_proc_show :
    (m : Monster)
    → OneLine m.name
    → m.age < 2 ^ 32
    → Shown m.hunger
    → Shown m.energy
    → parse_monster (monster_proc_show m)
      ≡ some (record {
        name = m.name;
        age = as_int m.age;
        hunger = m.hunger;
        energy = m.energy;
        mood = mood_text m.mood;
      })
unfolding parse_monster monster_proc_show
parse_monster-monster_proc_show m h a hu en =
    let last = mood_label ++ (mood_text m.mood ++ (10 ∷ [])) in
    let energies = energy_label ++ decimal m.energy last in
    let hungers = hunger_label ++ decimal m.hunger energies in
    ap parse_levels
      (line-append m.name (97 ∷ 103 ∷ 101 ∷ 58 ∷ 32 ∷ decimal (as_int m.age) hungers) h)
    ∙ rw
        (
          number_after-decimal age_label (as_int m.age) hungers (as_int-Shown m.age a) refl refl,
          number_after-decimal hunger_label m.hunger energies hu refl refl,
          number_after-decimal energy_label m.energy last en refl refl,
        )
        (ap
          (λ (l : List ℕ × List ℕ). some (record {
            name = m.name;
            age = as_int m.age;
            hunger = m.hunger;
            energy = m.energy;
            mood = l.0;
          }))
          (line-append (mood_text m.mood) [] (mood_text-OneLine m.mood)))

-- After `n` ticks of a valid monster whose name is one line, a reader of the file gets the same name,
-- an age of `n` more, as a signed number of 32 bits, hunger grown by ten a tick to 100 at most,
-- energy fallen by five a tick to 0 at least, and the text of the mood that goes with them.
pub shown_after_ticks :
    (n : ℕ) (p : Monster) (v : IsValid p)
    → OneLine p.name
    → let hunger = pos (min 100 (v.hunger + 10 * n)) in
      let energy = pos (v.energy - 5 * n) in
      parse_monster (monster_proc_show (ticks n p))
      ≡ some (record {
        name = p.name;
        age = as_int ((p.age + n) % 2 ^ 32);
        hunger = hunger;
        energy = energy;
        mood = mood_text (mood_of hunger energy);
      })
shown_after_ticks n p v one_line =
    let a = ticks_lem n p v in
    let same : OneLine (ticks n p).name = rw a.name one_line in
    let age : (ticks n p).age < 2 ^ 32 = omega (arith, a.age) in
    let hunger : Shown (ticks n p).hunger = rw a.hunger (omega arith) in
    let energy : Shown (ticks n p).energy = rw a.energy (omega (arith, v.energy_in)) in
    parse_monster-monster_proc_show (ticks n p) same age hunger energy
    ∙ rw (a.mood, a.hunger, a.energy, a.age, a.name) refl
