-- ===== src/CharDev/Transfers.antt =====
-- The transfers on the i2c bus with which `ModuleInit` of LKM/i2c_24LC256/i2c_24LC256.c and of
-- LKM/i2c_MCP9801/i2c_MCP9801.c ends.
pub mod Eeprom
use linux_kernel_modules.Base.{
  ℕ, true, ◌||◌, Option, none, some, List, [], ◌∷◌, ◌≡◌, ◌↔◌, if◌then◌else◌, arith,
}
use linux_kernel_modules.Kernel.{
  Env, Done, Ptr, null, is_null, is_zero, i2c_get_adapter, i2c_new_device,
}
use linux_kernel_modules.CharDev.Setup.{Grants}
use linux_kernel_modules.CharDev.Modules.{eeprom_init, mcp9801_init}

-- A transfer with the client of the module. It may fail, and the kernel's function then returns a
-- negative error; no result of these transfers is looked at, so that which come next does not depend
-- on it.
pub data Transfer : Type 0 where
  master_send : (bytes : List ℕ) → Transfer
  master_recv : (count : ℕ) → Transfer
  write_byte_data : (register value : ℕ) → Transfer
  read_byte_data read_word_data : (register : ℕ) → Transfer
  read_byte : Transfer
  read_block_data : (register length : ℕ) → Transfer
  msleep : (ms : ℕ) → Transfer  -- a pause between transfers

-- `buf`, at address 0 the bytes 0x50 and 0x51; 5 ms later `base_address`, and a byte for `recv_buf`.
abbrev pub eeprom_transfers : List Transfer
eeprom_transfers =
    master_send (0 ∷ 0 ∷ 80 ∷ 81 ∷ []) ∷ msleep 5 ∷ master_send (0 ∷ 0 ∷ []) ∷ master_recv 1 ∷ []

-- RESOLUTION_12B is 0x60.
abbrev pub mcp9801_transfers : List Transfer
mcp9801_transfers =
    write_byte_data 1 96
    ∷ read_byte_data 0
    ∷ read_word_data 0
    ∷ read_byte
    ∷ read_block_data 0 2
    ∷ []

-- The static pointer to the client, null until `i2c_new_device` sets it.
abbrev pub client_of : Env → Ptr
client_of env = if is_null (env.ptr i2c_get_adapter) then null else env.ptr i2c_new_device

-- The transfers follow the registrations unless these fail; `none`: a transfer is given NULL, which
-- the kernel's functions follow.
abbrev pub with_transfers : List Transfer → Env → Done → Option (Done × List Transfer)
with_transfers transfers env d =
    if is_zero d.ret
    then (if is_null (client_of env) then none else some (d, transfers))
    else some (d, [])

-- The whole of `ModuleInit`.
unfoldable pub eeprom_start : Env → Option (Done × List Transfer)
eeprom_start env = with_transfers eeprom_transfers env (eeprom_init env)

unfoldable pub mcp9801_start : Env → Option (Done × List Transfer)
mcp9801_start env = with_transfers mcp9801_transfers env (mcp9801_init env)

-- With the character device granted, the load of either module follows a NULL pointer exactly when
-- there is no adapter or no device on the bus; the test of the pointers guards the registration of
-- the driver alone.
pub null_client_iff :
    (env : Env)
    → Grants env
    → let missing = is_null (env.ptr i2c_get_adapter) || is_null (env.ptr i2c_new_device) in
      ((eeprom_start env ≡ none) ↔ (missing ≡ true))
      × ((mcp9801_start env ≡ none) ↔ (missing ≡ true))
unfolding eeprom_start mcp9801_start eeprom_init mcp9801_init
null_client_iff env g = ground arith
