-- ===== src/Tests.antt =====
-- Concrete inputs for the theorems: kernels that answer in known ways.
mod Gold
mod Fixed
mod Keys
mod Loading
mod Parts
mod Benchmark
mod Wakeups
mod Monitors
mod Clients
mod Texts
mod Orders
mod Typing
mod Devices
mod Handlers
use linux_kernel_modules.Base.{ℕ, ◌*◌, ◌^◌, ℤ, pos, negsuc, refl, List, take, drop}
use linux_kernel_modules.Kernel.{Call, Env, object, NeverNull, input_register_handler}
use linux_kernel_modules.CharDev.Setup.{Grants}

-- Major number 240, minor number 0.
abbrev dev_num : ℕ
dev_num = 240 * 2 ^ 20

abbrev pub kernel : (Call → ℤ) → Env
kernel ret = record { ret = ret; ptr = λ c. object; dev_num = dev_num }

-- A kernel that grants everything.
abbrev pub granting : Env
granting = kernel (λ c. pos 0)

abbrev handler_refused : Call → ℤ
handler_refused input_register_handler = negsuc 11
handler_refused _ = pos 0

abbrev pub without_handler : Env
without_handler = kernel handler_refused

pub granting-NeverNull : NeverNull granting
granting-NeverNull c e = cc

-- `simple_read_from_buffer`.
abbrev pub copy_out : (len ppos : ℕ) → List ℕ → (l : ℕ) → List ℕ
copy_out len ppos out l = take len (drop ppos (take l out))
