-- ===== src/Keyboard/Lifecycle.antt =====
-- The life of a keyboard monitor of LKM/Keyboard_monitor: it is loaded, the input core connects it to
-- keyboards and disconnects it, and it is unloaded. What the module holds is counted for each
-- keyboard apart.
pub mod Clean
use linux_kernel_modules.Base.{
  ℕ, zero, suc, ◌+◌, Bool, true, false, Option, none, some, List, [], ◌∷◌, ◌++◌, ◌≡◌, ◌==◌, ◌||◌,
  if◌then◌else◌,
}
use linux_kernel_modules.Kernel.{
  Env, Trace, Done, Resource, held, is_zero, is_err, tag, handle, misc, kzalloc, misc_register,
}
use linux_kernel_modules.Keyboard.Drivers.{
  Driver, Variant, plain, sequence_detector, timing, chrdev, driver_of,
}

-- `loaded` holds the answers that `init` got, `linked` those that `connect` got, for each keyboard
-- that the input core has a handle for. `lost`: what calls have left held that nothing will release.
-- `refused` counts the loads that failed.
pub record Monitor : Type 0 where
  pub loaded : Option Env
  pub linked : List Env
  pub lost : List Resource
  pub refused : ℕ

abbrev pub has_handle : List Resource → Bool
has_handle [] = false
has_handle (r ∷ rs) = tag r == tag handle || has_handle rs

module _ (v : Variant) where
  abbrev pub loading : Env → List Resource
  loading env = held env ((driver_of v).init env).trace

  abbrev pub unloading : Env → List Resource
  unloading env = held env ((driver_of v).exit ((driver_of v).init env).trace)

  abbrev pub connecting : Env → List Resource
  connecting env = held env ((driver_of v).connect env).trace

  abbrev pub disconnecting : Env → List Resource
  disconnecting env = held env ((driver_of v).disconnect ((driver_of v).connect env).trace)

  abbrev pub disconnecting_all : List Env → List Resource
  disconnecting_all [] = []
  disconnecting_all (env ∷ envs) = disconnecting env ++ disconnecting_all envs

  -- The input core keeps a keyboard for which `connect` has registered a handle, whatever it returns.
  abbrev pub attach : Env → Monitor → Monitor
  attach env s =
      if has_handle (connecting env)
      then record s { linked = env ∷ s.linked }
      else record s { lost = connecting env ++ s.lost }

  -- What the kernel answers: `kzalloc` returns NULL or memory, and the misc device of
  -- kbdmon_chrdev.c is granted.
  abbrev pub Answers : Env → Type 0
  Answers env = (is_err (env.ptr kzalloc) ≡ false) × (is_zero (env.ret misc_register) ≡ true)

  pub data Step (s : Monitor) : Monitor → Type 0 where
    load :
        (env : Env)
        → s.loaded ≡ none
        → Answers env
        → is_zero ((driver_of v).init env).ret ≡ true
        → Step s (record s { loaded = some env })
    refuse :
        (env : Env)
        → s.loaded ≡ none
        → Answers env
        → is_zero ((driver_of v).init env).ret ≡ false
        → Step s (record s { lost = loading env ++ s.lost; refused = suc s.refused })
    plug : (env l : Env) → s.loaded ≡ some l → Answers env → Step s (attach env s)
    unplug :
        (before after : List Env) (env : Env)
        → s.linked ≡ before ++ env ∷ after
        → Step s (record s { linked = before ++ after; lost = disconnecting env ++ s.lost })
    -- `input_unregister_handler` disconnects every keyboard.
    unload :
        (env : Env)
        → s.loaded ≡ some env
        → Step s (record s {
          loaded = none;
          linked = [];
          lost = disconnecting_all s.linked ++ unloading env ++ s.lost;
        })

  abbrev pub start : Monitor
  start = record { loaded = none; linked = []; lost = []; refused = 0 }

  pub data Reach : Monitor → Type 0 where
    here : Reach start
    next : {s t : Monitor} → Reach s → Step s t → Reach t

  abbrev pub connecting_all : List Env → List Resource
  connecting_all [] = []
  connecting_all (env ∷ envs) = connecting env ++ connecting_all envs

  abbrev pub loading_part : Option Env → List Resource
  loading_part none = []
  loading_part (some env) = loading env

  -- All that the module holds.
  abbrev pub holdings : Monitor → List Resource
  holdings s = loading_part s.loaded ++ connecting_all s.linked ++ s.lost

-- One misc device for each load of kbdmon_chrdev.c that was refused.
abbrev pub misc_devices : ℕ → List Resource
misc_devices zero = []
misc_devices (suc n) = misc ∷ misc_devices n

abbrev pub left_behind : Variant → ℕ → List Resource
left_behind chrdev n = misc_devices n
left_behind plain n = []
left_behind sequence_detector n = []
left_behind timing n = []
