-- ===== src/Kern/Error.antt =====
-- The error codes of include/error.h.
use mos_riscv.Prelude.{ℕ, ◌-◌, ◌^◌, Option, none}

pub data Error : Type 0 where
  e_bad_env e_inval e_no_mem e_no_sys e_no_free_env e_ipc_not_recv e_no_disk : Error
  e_max_open e_not_found e_bad_path e_file_exists e_not_exec e_intr e_no_dev : Error

-- The number of an error.
unfoldable pub error_code : Error → ℕ
error_code e_bad_env = 2
error_code e_inval = 3
error_code e_no_mem = 4
error_code e_no_sys = 5
error_code e_no_free_env = 6
error_code e_ipc_not_recv = 7
error_code e_no_disk = 8
error_code e_max_open = 9
error_code e_not_found = 10
error_code e_bad_path = 11
error_code e_file_exists = 12
error_code e_not_exec = 13
error_code e_intr = 14
error_code e_no_dev = 15

-- A negative return value as a 64-bit word.
unfoldable pub negative : Error → ℕ
negative e = 2 ^ 64 - error_code e

-- `0`, or an error.
abbrev pub Ret : Type 0
Ret = Option Error

abbrev pub success : Ret
success = none
