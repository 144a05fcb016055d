-- ===== src/Kern/Board.antt =====
-- The kernel with its devices, and what the machine and the linker give.
use mos_riscv.Prelude.{ℕ, ◌-◌, List}
use mos_riscv.Prelude.Run.{Run, Cmd, done, stopped, wild}
use mos_riscv.Kern.Mmu.{utop}
use mos_riscv.Kern.Pmap.Mem.{Mem}
use mos_riscv.Kern.Env.State.{Kernel, Trapframe}
use mos_riscv.Driver.Device.Defs.{Devices, Device, Responses}
use mos_riscv.Driver.Plic.{Plic}

-- What an entry of the list of processes says, without the name.
pub record Process : Type 0 where
  pub env_id : ℕ
  pub env_parent_id : ℕ
  pub env_pri : ℕ
  pub env_status : ℕ
  pub env_runs : ℕ

-- What `memcpy` moves through the tables of a page directory, by the kind of the data; the addresses that
-- the linker gives; and the input of devices and of the console. A directory is given by its frame.
pub record Machine : Type 0 where
  pub get_frame : Mem → ℕ → ℕ → Trapframe
  pub put_frame : ℕ → ℕ → Trapframe → Mem → Mem
  -- the value of a number of bytes, lowest byte first
  pub get_value : Mem → ℕ → ℕ → ℕ → ℕ
  pub put_value : ℕ → ℕ → ℕ → ℕ → Mem → Mem
  pub get_bytes : Mem → ℕ → ℕ → ℕ → List ℕ
  pub put_device : ℕ → ℕ → Device → ℕ → Mem → Mem
  pub put_processes : ℕ → ℕ → List Process → Mem → Mem
  -- a copy of a number of bytes to an address from another
  pub copy : ℕ → ℕ → ℕ → ℕ → Mem → Mem
  -- `&envs[i].env_tf`, a local variable on the stack of the kernel, and the buffer of the kernel
  pub env_tf_address : ℕ → ℕ
  pub local : ℕ
  pub kernel_buffer : ℕ
  pub kernel_buffer_size : ℕ
  pub answers : Responses
  pub console_read : List ℕ → ℕ
  -- what the register a0 holds after a function without a result
  pub no_result : ℕ

-- The state: `interrupt_code_to_envid` of kern/env_interrupt.c, what was printed, newest first.
pub record Board : Type 0 where
  pub plic : Plic
  pub interrupt_code_to_envid : ℕ → ℕ
  pub console : List ℕ

abbrev pub kernel_of : Board → Kernel
kernel_of b = b.plic.devices.kmmap.kernel

abbrev pub set_devices : Devices → Board → Board
set_devices d b = record b { plic = record (b.plic) { devices = d } }

abbrev pub set_kernel : Kernel → Board → Board
set_kernel k b =
    set_devices (record (b.plic.devices) { kmmap = record (b.plic.devices.kmmap) { kernel = k } }) b

module _ {A : Type 0} where
  unfoldable pub lift_kernel : Run Kernel A → Cmd Board A
  lift_kernel (done a k) b = done a (set_kernel k b)
  lift_kernel stopped b = stopped
  lift_kernel wild b = wild

  -- A command of a part, on the whole.
  unfoldable pub in_kernel : Cmd Kernel A → Cmd Board A
  in_kernel c b = lift_kernel (c (kernel_of b)) b

  unfoldable pub lift_plic : Run Plic A → Cmd Board A
  lift_plic (done a p) b = done a (record b { plic = p })
  lift_plic stopped b = stopped
  lift_plic wild b = wild

  unfoldable pub in_plic : Cmd Plic A → Cmd Board A
  in_plic c b = lift_plic (c b.plic) b

  unfoldable pub lift_devices : Run Devices A → Cmd Board A
  lift_devices (done a d) b = done a (set_devices d b)
  lift_devices stopped b = stopped
  lift_devices wild b = wild

  unfoldable pub in_devices : Cmd Devices A → Cmd Board A
  in_devices c b = lift_devices (c b.plic.devices) b

-- KSTACKTOP, sizeof(struct Trapframe), and the frame below the top of the stack
abbrev pub kstacktop : ℕ
kstacktop = 0xFFFFFFC001000000

abbrev pub trapframe_size : ℕ
trapframe_size = 304

abbrev pub stack_tf_address : ℕ
stack_tf_address = kstacktop - trapframe_size

abbrev pub uxstacktop : ℕ
uxstacktop = utop
