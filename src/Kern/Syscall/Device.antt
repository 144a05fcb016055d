-- ===== src/Kern/Syscall/Device.antt =====
-- System calls on devices, interrupts, the console, and the list of processes.
use mos_riscv.Prelude.{
  ℕ, zero, suc, ◌+◌, ◌*◌, ◌%◌, ◌^◌, Bool, not, ◌||◌, Option, none, some, List, [], ◌∷◌, ◌++◌,
  length, ◌==◌, ltb, leb, if◌then◌else◌, min,
}
use mos_riscv.Prelude.Run.{Cmd, done, wild, pure, panic, undefined, modify, ◌>>=◌, ◌>>◌}
use mos_riscv.Kern.Error.{Ret, success, e_inval, e_no_dev}
use mos_riscv.Kern.Mmu.{utop}
use mos_riscv.Kern.Kmalloc.Defs.{kmalloc, kfree}
use mos_riscv.Kern.Env.State.{
  Status, env_free, env_runnable, env_not_runnable, is_free, Kernel, Env, nenv,
}
use mos_riscv.Kern.Userspace.{copy_user_space}
use mos_riscv.Kern.Board.{Machine, Board, Process, kernel_of, in_kernel, in_plic, in_devices}
use mos_riscv.Kern.Interrupt.Defs.{is_illegal_handler, register_env_interrupt, ret_env_interrupt}
use mos_riscv.Kern.Syscall.Guard.{is_illegal_va_range, need_cur}
use mos_riscv.Kern.Syscall.Create.{IntRet, value, failure}
use mos_riscv.Driver.Device.Defs.{
  Device, legal_device, iowrite, ioread, get_device_count, nth_of_type, after_free, set_heap,
}
use mos_riscv.Driver.Plic.{plic_get_interrupt_count, plic_enable_interrupt}

abbrev pub is_width : ℕ → Bool
is_width len = (len == 1) || (len == 2) || (len == 4) || (len == 8)

-- The branches of `sys_write_dev` after its checks: a width of 8 bytes has none, since the test for it asks
-- for 4 again.
unfoldable pub has_write : ℕ → Bool
has_write len = (len == 1) || (len == 2) || (len == 4)

unfoldable pub user_value : Machine → ℕ → ℕ → Cmd Kernel ℕ
user_value hw va len = need_cur (λ c.
    copy_user_space va hw.local (λ k. done (hw.get_value k.mem (k.envs c).env_pgdir va len) k))

unfoldable pub device_write : Machine → ℕ → ℕ → ℕ → Option Device → Cmd Board Ret
device_write hw va pa len none = pure (some e_inval)
device_write hw va pa len (some v) =
    if has_write len
    then (do x ← in_kernel (user_value hw va len); in_devices (iowrite len v x pa); pure success)
    else panic

unfoldable pub sys_write_dev : Machine → ℕ → ℕ → ℕ → Cmd Board Ret
sys_write_dev hw va pa len b =
    if not (is_width len)
    then done (some e_inval) b
    else if is_illegal_va_range va len
    then done (some e_inval) b
    else device_write hw va pa len (legal_device pa len b.plic.devices) b

-- The value is copied from a local variable to the process.
unfoldable pub give_value : Machine → ℕ → ℕ → ℕ → Cmd Kernel (Unit {0})
give_value hw va len x = need_cur (λ c.
    copy_user_space hw.local va
      (λ k. done tt (record k { mem = hw.put_value (k.envs c).env_pgdir va len x k.mem })))

unfoldable pub device_read : Machine → ℕ → ℕ → ℕ → Option Device → Cmd Board Ret
device_read hw va pa len none = pure (some e_inval)
device_read hw va pa len (some v) = do
  x ← in_devices (ioread hw.answers len v pa)
  in_kernel (give_value hw va len x)
  pure success

unfoldable pub sys_read_dev : Machine → ℕ → ℕ → ℕ → Cmd Board Ret
sys_read_dev hw va pa len b =
    if not (is_width len)
    then done (some e_inval) b
    else if is_illegal_va_range va len
    then done (some e_inval) b
    else device_read hw va pa len (legal_device pa len b.plic.devices) b

-- The rest of a call that panics where `curenv` is NULL.
unfoldable pub for_cur : {A : Type 0} → (ℕ → Cmd Board A) → Option ℕ → Cmd Board A
for_cur rest none = panic
for_cur rest (some c) = rest c

unfoldable pub board_cur : {A : Type 0} → (ℕ → Cmd Board A) → Cmd Board A
board_cur rest b = for_cur rest (kernel_of b).curenv b

unfoldable pub set_handler : Machine → ℕ → ℕ → ℕ → Cmd Board Ret
set_handler hw code va c = do
  count ← in_plic plic_get_interrupt_count
  if leb count code || is_illegal_handler va then pure (some e_inval) else (do
    register_env_interrupt code c va
    in_plic (plic_enable_interrupt hw.answers code 1)
    pure success)

unfoldable pub sys_set_interrupt_handler : Machine → ℕ → ℕ → Cmd Board Ret
sys_set_interrupt_handler hw code va = board_cur (set_handler hw code va)

-- The result of `ret_env_interrupt` is ignored; the register is that of the frame that it restored.
unfoldable pub sys_interrupt_return : Machine → Cmd Board ℕ
sys_interrupt_return hw =
    board_cur (λ c. do ret_env_interrupt hw; λ b. done ((kernel_of b).stack_tf.regs 10) b)

unfoldable pub sys_print_cons : Machine → ℕ → ℕ → Cmd Board Ret
sys_print_cons hw s num =
    let end = (s + num) % 2 ^ 64 in
    if ltb utop end || leb utop s || ltb end s || leb hw.kernel_buffer_size num
    then pure (some e_inval)
    else board_cur (λ c. do
      bytes ← in_kernel (
          copy_user_space s hw.kernel_buffer
            (λ k. done (hw.get_bytes k.mem (k.envs c).env_pgdir s num) k))
      modify (λ b. record b { console = bytes ++ b.console })
      pure success)

unfoldable pub sys_putchar : ℕ → Cmd Board (Unit {0})
sys_putchar ch = modify (λ b. record b { console = ch % 256 ∷ b.console })

-- The bytes before the first 0, and at most `left` of them.
unfoldable pub c_string : ℕ → List ℕ → List ℕ
c_string zero bytes = []
c_string (suc left) [] = []
c_string (suc left) (c ∷ cs) = let rest = c_string left cs in if c == 0 then [] else c ∷ rest

-- `device_type_buffer`, of DEVICE_TYPE_LEN bytes of which the last is set to 0.
unfoldable pub device_type_buffer : Machine → ℕ → ℕ → Cmd Board (List ℕ)
device_type_buffer hw device_type c = in_kernel (
    copy_user_space device_type hw.local
      (λ k. done (c_string 31 (hw.get_bytes k.mem (k.envs c).env_pgdir device_type 32)) k))

unfoldable pub sys_get_device_count : Machine → ℕ → Cmd Board ℕ
sys_get_device_count hw device_type = board_cur (λ c. do
  name ← device_type_buffer hw device_type c
  λ b. done (get_device_count name b.plic.devices % 2 ^ 32) b)

-- `user_find_device_by_type` of kern/device.c after its search: the ranges are copied to an array of 32.
unfoldable pub give_device : Machine → ℕ → ℕ → ℕ → ℕ → Option Device → Cmd Board Ret
give_device hw max_len out out_data c none = pure (some e_no_dev)
give_device hw max_len out out_data c (some v) =
    if ltb 32 (length v.mmio_range_list) then undefined else (do
      in_kernel (
          copy_user_space hw.local out (λ k. done tt (record k {
            mem = hw.put_device (k.envs c).env_pgdir out v (min v.device_data_len max_len) k.mem;
          })))
      in_kernel (
          copy_user_space v.device_data out_data (λ k. done tt (record k {
            mem =
                hw.copy (k.envs c).env_pgdir out_data v.device_data (min v.device_data_len max_len)
                  k.mem;
          })))
      pure success)

-- sizeof(struct UserDevice)
abbrev pub user_device_size : ℕ
user_device_size = 568

unfoldable pub get_device_for : Machine → ℕ → ℕ → ℕ → ℕ → ℕ → ℕ → Cmd Board Ret
get_device_for hw device_type idx max_len out out_data c =
    if is_illegal_va_range out user_device_size || is_illegal_va_range out_data max_len
    then pure (some e_inval)
    else (do
      name ← device_type_buffer hw device_type c
      λ b. give_device hw max_len out out_data c (nth_of_type name idx 0 b.plic.devices.array) b)

unfoldable pub sys_get_device : Machine → ℕ → ℕ → ℕ → ℕ → ℕ → Cmd Board Ret
sys_get_device hw device_type idx max_len out out_data =
    board_cur (get_device_for hw device_type idx max_len out out_data)

-- The numbers of the statuses.
unfoldable pub status_number : Status → ℕ
status_number env_free = 0
status_number env_runnable = 1
status_number env_not_runnable = 2

unfoldable pub process_of : Env → Process
process_of v = record {
  env_id = v.env_id;
  env_parent_id = v.env_parent_id;
  env_pri = v.env_pri;
  env_status = status_number v.env_status;
  env_runs = v.env_runs;
}

-- The rounds of the loop that are left, from environment `i` on.
unfoldable pub list_from : ℕ → ℕ → (ℕ → Env) → List Process
list_from zero i envs = []
list_from (suc left) i envs =
    let rest = list_from left (i + 1) envs in
    if is_free (envs i).env_status then rest else process_of (envs i) ∷ rest

-- sizeof(struct Process)
abbrev pub process_size : ℕ
process_size = 64

-- The buffer at `p` holds `max` entries; an entry behind them is written past its end.
unfoldable pub fill_list : Machine → ℕ → ℕ → ℕ → Option ℕ → Cmd Board IntRet
fill_list hw max out c none = panic
fill_list hw max out c (some p) = λ b.
    let processes = list_from nenv 0 (kernel_of b).envs in
    if ltb max (length processes)
    then wild
    else (do
      in_kernel (
          copy_user_space p out (λ k.
            done tt (record k { mem = hw.put_processes (k.envs c).env_pgdir out processes k.mem })))
      in_devices (λ d. after_free (kfree p d.heap) d)
      pure (value (length processes)))
        b

-- `max_len` is the bits of an `int`.
unfoldable pub process_list_for : Machine → ℕ → ℕ → ℕ → Cmd Board IntRet
process_list_for hw max_len out c =
    if leb (2 ^ 31) max_len || is_illegal_va_range out (max_len * process_size)
    then pure (failure e_inval)
    else (do
      p ← in_devices (λ d.
          let (q, h) = kmalloc (min max_len nenv * process_size) d.heap in done q (set_heap h d))
      fill_list hw (min max_len nenv) out c p)

unfoldable pub sys_get_process_list : Machine → ℕ → ℕ → Cmd Board IntRet
sys_get_process_list hw max_len out = board_cur (process_list_for hw max_len out)
