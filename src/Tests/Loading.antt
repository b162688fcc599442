-- ===== src/Tests/Loading.antt =====
-- The theorems on loading and unloading at concrete kernels.
use linux_kernel_modules.Base.{◌≡◌, [], ◌∷◌}
use linux_kernel_modules.Kernel.{held, region, cdev, class, node}
use linux_kernel_modules.Tests.{granting, granting-NeverNull}
use linux_kernel_modules.Gold.Load.{gold_init, gold_exit, gold_init_balanced}

gold_init_balanced_example :
    (held granting (gold_init granting).trace ≡ node ∷ class ∷ cdev ∷ region ∷ [])
    × (held granting (gold_exit (gold_init granting).trace) ≡ [])
unfolding gold_init
gold_init_balanced_example = gold_init_balanced granting granting-NeverNull
