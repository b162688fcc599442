-- ===== src/Keyboard/Lifecycle/Clean.antt =====
-- What a keyboard monitor leaves behind.
use linux_kernel_modules.Base.{
  ℕ, suc, Bool, true, false, none, some, List, [], ◌∷◌, ◌++◌, ◌≡◌, if◌then◌else◌, refl, sym, ap,
  ◌∙◌, ◌≢◌, Bool-cases, inl, inr, arith,
}
use mathlib.Core.Path.{subst}
use mathlib.Core.Option.{some-injective}
use linux_kernel_modules.Kernel.{Env, Resource, held, is_zero, opened, handle, memory}
use linux_kernel_modules.Keyboard.Handle.{
  kbdmon_connect, kbdmon_connect_balanced, kbdmon_init, kbdmon_exit, chrdev_init, chrdev_exit,
}
use linux_kernel_modules.Keyboard.Drivers.{
  Variant, plain, sequence_detector, timing, chrdev, driver_of,
}
use linux_kernel_modules.Keyboard.Lifecycle.{
  Monitor, has_handle, loading, unloading, connecting, disconnecting, disconnecting_all, attach,
  Answers, Step, load, refuse, plug, unplug, unload, Reach, here, next, holdings, left_behind,
}

disconnecting-nil : (v : Variant) (env : Env) → Answers v env → disconnecting v env ≡ []
disconnecting-nil plain env a = (kbdmon_connect_balanced env a.0).1
disconnecting-nil sequence_detector env a = (kbdmon_connect_balanced env a.0).1
disconnecting-nil timing env a = (kbdmon_connect_balanced env a.0).1
disconnecting-nil chrdev env a = (kbdmon_connect_balanced env a.0).1

all_or_nothing :
    (granted : Bool) (xs : List Resource)
    → xs ≡ (if granted then opened ∷ handle ∷ memory ∷ [] else [])
    → has_handle xs ≡ false
    → xs ≡ []
all_or_nothing false xs e h = e
all_or_nothing true xs e h = let no : true ≡ false = rw e at h in cc

failed_connect :
    (env : Env)
    → Answers plain env
    → has_handle (held env (kbdmon_connect env).trace) ≡ false
    → held env (kbdmon_connect env).trace ≡ []
failed_connect env a h =
    all_or_nothing (is_zero (kbdmon_connect env).ret) _ (kbdmon_connect_balanced env a.0).0 h

connecting-nil :
    (v : Variant) (env : Env)
    → Answers v env
    → has_handle (connecting v env) ≡ false
    → connecting v env ≡ []
connecting-nil plain env a h = failed_connect env a h
connecting-nil sequence_detector env a h = failed_connect env a h
connecting-nil timing env a h = failed_connect env a h
connecting-nil chrdev env a h = failed_connect env a h

unloading-nil : (v : Variant) (env : Env) → Answers v env → unloading v env ≡ []
unfolding kbdmon_init kbdmon_exit chrdev_init chrdev_exit
unloading-nil plain env a = ground arith
unloading-nil sequence_detector env a = ground arith
unloading-nil timing env a = ground arith
unloading-nil chrdev env (k, m) = ground arith

loading-left_behind :
    (v : Variant) (env : Env) (n : ℕ)
    → Answers v env
    → is_zero ((driver_of v).init env).ret ≡ false
    → loading v env ++ left_behind v n ≡ left_behind v (suc n)
unfolding kbdmon_init chrdev_init
loading-left_behind plain env n a h = ground arith
loading-left_behind sequence_detector env n a h = ground arith
loading-left_behind timing env n a h = ground arith
loading-left_behind chrdev env n (k, m) h = ground arith

abbrev AllAnswer : Variant → List Env → Type 0
AllAnswer v [] = Unit {0}
AllAnswer v (env ∷ envs) = Answers v env × AllAnswer v envs

unplugged :
    (v : Variant) (before after : List Env) (env : Env)
    → AllAnswer v (before ++ env ∷ after)
    → Answers v env × AllAnswer v (before ++ after)
unplugged v [] after env all = all
unplugged v (e ∷ before) after env (a, all) =
    let (b, rest) = unplugged v before after env all in (b, (a, rest))

disconnecting_all-nil :
    (v : Variant) (envs : List Env) → AllAnswer v envs → disconnecting_all v envs ≡ []
disconnecting_all-nil v [] all = refl
disconnecting_all-nil v (env ∷ envs) (a, all) =
    rw (disconnecting-nil v env a, disconnecting_all-nil v envs all)

nothing_lost : (v : Variant) → [] ≡ left_behind v 0
nothing_lost plain = refl
nothing_lost sequence_detector = refl
nothing_lost timing = refl
nothing_lost chrdev = refl

not_cons : (before after : List Env) (env : Env) → before ++ env ∷ after ≢ []
not_cons [] after env e = cc
not_cons (b ∷ before) after env e = cc

record IsClean (v : Variant) (s : Monitor) : Type 0 where
  answered : AllAnswer v s.linked
  when_loaded : (env : Env) → s.loaded ≡ some env → Answers v env
  when_not : s.loaded ≡ none → s.linked ≡ []
  lost : s.lost ≡ left_behind v s.refused

module _ (v : Variant) where
  attach-IsClean :
      (s : Monitor) (env l : Env)
      → IsClean v s
      → s.loaded ≡ some l
      → Answers v env
      → IsClean v (attach v env s)
  attach-IsClean s env l c e a = elim (Bool-cases (has_handle (connecting v env))) [
    | inl has ↦ simp has (record {
      answered = (a, c.answered);
      when_loaded = c.when_loaded;
      when_not = λ n. cc;
      lost = c.lost;
    })
    | inr none_left ↦ simp none_left (record {
      answered = c.answered;
      when_loaded = c.when_loaded;
      when_not = c.when_not;
      lost = ap (λ xs. xs ++ s.lost) (connecting-nil v env a none_left) ∙ c.lost;
    })
  ]

  Step-IsClean : {s t : Monitor} → IsClean v s → Step v s t → IsClean v t
  Step-IsClean {s} c (load env n a z) = record {
    answered = c.answered;
    when_loaded = λ f e. subst (Answers v) (some-injective _ _ e) a;
    when_not = λ e. cc;
    lost = c.lost;
  }
  Step-IsClean {s} c (refuse env n a f) = record {
    answered = c.answered;
    when_loaded = c.when_loaded;
    when_not = c.when_not;
    lost = ap (λ xs. loading v env ++ xs) c.lost ∙ loading-left_behind v env s.refused a f;
  }
  Step-IsClean {s} c (plug env l e a) = attach-IsClean s env l c e a
  Step-IsClean {s} c (unplug before after env e) =
      let (a, all) = unplugged v before after env (subst (AllAnswer v) e c.answered) in
      record {
        answered = all;
        when_loaded = c.when_loaded;
        when_not = λ n. absurd (not_cons before after env (sym e ∙ c.when_not n));
        lost = ap (λ xs. xs ++ s.lost) (disconnecting-nil v env a) ∙ c.lost;
      }
  Step-IsClean {s} c (unload env e) = record {
    answered = tt;
    when_loaded = λ f q. cc;
    when_not = λ n. refl;
    lost =
        rw (disconnecting_all-nil v s.linked c.answered, unloading-nil v env (c.when_loaded env e))
          c.lost;
  }

  Reach-IsClean : {s : Monitor} → Reach v s → IsClean v s
  Reach-IsClean here = record {
    answered = tt;
    when_loaded = λ f q. cc;
    when_not = λ n. refl;
    lost = nothing_lost v;
  }
  Reach-IsClean (next r st) = Step-IsClean (Reach-IsClean r) st

-- However often one of the four keyboard monitors is loaded, connected to keyboards, disconnected
-- and unloaded, and whatever the calls answer: while it is not loaded it holds nothing, except for
-- the character device variant, which holds one misc device for each load that was refused. For a
-- `kzalloc` that returns NULL or memory, and a `misc_register` that succeeds.
pub unloaded_holds_nothing :
    (v : Variant) (s : Monitor)
    → Reach v s
    → s.loaded ≡ none
    → holdings v s ≡ left_behind v s.refused
unloaded_holds_nothing v s r n =
    let c : IsClean v s = Reach-IsClean v r in rw (n, c.when_not n) c.lost
