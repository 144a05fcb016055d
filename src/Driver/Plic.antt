-- ===== src/Driver/Plic.antt =====
-- The interrupt controller: kern/plic.c. Its description comes from the device tree, which is an argument.
use mos_riscv.Prelude.{
  ℕ, ◌+◌, ◌-◌, ◌*◌, ◌/◌, ◌%◌, ◌^◌, Bool, true, false, Option, none, some, List, [], ◌∷◌, get_elem?,
  leb, if◌then◌else◌, update, bit_and, bit_or,
}
use mos_riscv.Prelude.Run.{Run, Cmd, done, stopped, wild, pure, undefined, modify, ◌>>=◌, ◌>>◌}
use mos_riscv.Kern.Kmalloc.Defs.{kmalloc}
use mos_riscv.Driver.Device.Defs.{
  Device, Devices, Responses, add_device, add_mmio_range, set_heap, iowrite, ioread,
}

-- `struct PlicData`
pub record PlicData : Type 0 where
  pub interrupt_count : ℕ
  pub s_interrupt_code : ℕ
  pub base_pa : ℕ
  pub len : ℕ

-- The globals of kern/plic.c, with the devices. The one handler that is ever registered is
-- `handle_env_interrupt`, so that an entry of `interrupt_handler` is set or NULL.
pub record Plic : Type 0 where
  pub devices : Devices
  pub plic_device : Option Device
  pub plic_base_pa : ℕ
  pub plic_interrupt_count : ℕ
  pub interrupt_handler : ℕ → Bool
  -- `interrupt_handler_map` of kern/interrupt.c, for `handle_plic_interrupt`, and the register `sie`
  pub interrupt_handler_map : ℕ → Bool
  pub sie : ℕ

unfoldable pub lift_plic_devices : {A : Type 0} → Run Devices A → Cmd Plic A
lift_plic_devices (done a d) p = done a (record p { devices = d })
lift_plic_devices stopped p = stopped
lift_plic_devices wild p = wild

unfoldable pub on_devices : {A : Type 0} → Cmd Devices A → Cmd Plic A
on_devices c p = lift_plic_devices (c p.devices) p

-- "plic", and sizeof(struct PlicData)
abbrev pub plic_type : List ℕ
plic_type = 0x70 ∷ 0x6c ∷ 0x69 ∷ 0x63 ∷ []

abbrev pub plic_data_size : ℕ
plic_data_size = 32

-- The device with index `i` is copied to `plic_device`.
unfoldable pub keep_device : ℕ → Plic → Plic
keep_device i p = record p { plic_device = get_elem? p.devices.array i }

-- The clone of the info at `cloned`, and the copy of the device in the heap.
unfoldable pub register_cloned : PlicData → Option ℕ → Cmd Plic (Unit {0})
register_cloned info none = undefined
register_cloned info (some cloned) = do
  i ← on_devices (add_device plic_type cloned plic_data_size)
  slot ← (λ p.
      let (q, h) = kmalloc 64 p.devices.heap in
      done q (record p { devices = set_heap h p.devices }))
  on_devices (add_mmio_range i info.base_pa info.len)
  elim slot [ none ↦ undefined | some _ ↦ modify (keep_device i) ]

unfoldable pub register_plic_device : PlicData → Cmd Plic (Unit {0})
register_plic_device info p =
    let (cloned, h) = kmalloc plic_data_size p.devices.heap in
    register_cloned info cloned (record p { devices = set_heap h p.devices })

-- The offsets of include/plic.h.
abbrev pub enable_offset : ℕ
enable_offset = 0x002080

abbrev pub threshold_offset : ℕ
threshold_offset = 0x201000

abbrev pub claim_offset : ℕ
claim_offset = 0x201004

-- The rest of an operation that panics where no device is registered.
unfoldable pub with_plic : {A : Type 0} → (Device → Cmd Plic A) → Cmd Plic A
with_plic rest p = elim p.plic_device [ none ↦ stopped | some v ↦ rest v p ]

-- The same where the code must be below the number of interrupts.
unfoldable pub with_code : {A : Type 0} → ℕ → (Device → Cmd Plic A) → Cmd Plic A
with_code code rest =
    with_plic (λ v p. if leb p.plic_interrupt_count code then stopped else rest v p)

-- `plic_base_pa + offset`
unfoldable pub register : ℕ → Plic → ℕ
register offset p = (p.plic_base_pa + offset) % 2 ^ 64

unfoldable pub plic_get_prority_threshold : Responses → Cmd Plic ℕ
plic_get_prority_threshold hw =
    with_plic (λ v p. on_devices (ioread hw 4 v (register threshold_offset p)) p)

unfoldable pub plic_set_prority_threshold : ℕ → Cmd Plic (Unit {0})
plic_set_prority_threshold threshold =
    with_plic (λ v p. on_devices (iowrite 4 v threshold (register threshold_offset p)) p)

unfoldable pub plic_get_interrupt_code : Responses → Cmd Plic ℕ
plic_get_interrupt_code hw =
    with_plic (λ v p. on_devices (ioread hw 4 v (register claim_offset p)) p)

unfoldable pub plic_mark_finish : ℕ → Cmd Plic (Unit {0})
plic_mark_finish code =
    with_code code (λ v p. on_devices (iowrite 4 v code (register claim_offset p)) p)

unfoldable pub plic_set_prority : ℕ → ℕ → Cmd Plic (Unit {0})
plic_set_prority code prority =
    with_code code (λ v p. on_devices (iowrite 4 v prority (register (code * 4 % 2 ^ 32) p)) p)

-- The register of `plic_enable_interrupt`. The quotient is the number of a register of 4 bytes, and is added
-- as a number of bytes.
unfoldable pub enable_register : ℕ → Plic → ℕ
enable_register code p = register (enable_offset + code / 32) p

unfoldable pub plic_enable_interrupt : Responses → ℕ → ℕ → Cmd Plic (Unit {0})
plic_enable_interrupt hw code prority = with_code code (λ v. do
  modify (λ p. record p { interrupt_handler = update p.interrupt_handler code true })
  previous ← (λ p. on_devices (ioread hw 4 v (enable_register code p)) p)
  λ p. on_devices (iowrite 4 v (bit_or previous (2 ^ (code % 32))) (enable_register code p)) p
  plic_set_prority code prority)

unfoldable pub plic_get_interrupt_count : Cmd Plic ℕ
plic_get_interrupt_count = with_plic (λ _ p. done p.plic_interrupt_count p)

-- `register_interrupt_handler` of kern/interrupt.c, for `handle_plic_interrupt`.
unfoldable pub register_interrupt_handler : ℕ → Cmd Plic (Unit {0})
register_interrupt_handler code p =
    if leb 64 code
    then stopped
    else done tt (record p { interrupt_handler_map = update p.interrupt_handler_map code true })

-- `enable_interrupt` and `disable_interrupt`, which take the code for the mask.
unfoldable pub enable_interrupt : ℕ → Plic → Plic
enable_interrupt code p = record p { sie = bit_or p.sie code }

unfoldable pub disable_interrupt : ℕ → Plic → Plic
disable_interrupt code p = record p { sie = bit_and p.sie (2 ^ 64 - 1 - code) }

unfoldable pub set_plic : PlicData → Plic → Plic
set_plic info p = record p {
  plic_base_pa = info.base_pa;
  plic_interrupt_count = info.interrupt_count;
}

unfoldable pub clear_handlers : Option ℕ → Cmd Plic (Unit {0})
clear_handlers none = undefined
clear_handlers (some a) = modify (λ p. record p { interrupt_handler = λ _. false })

-- For what the device tree gives: no node, or what it says of the node.
unfoldable pub plic_init : Option PlicData → Cmd Plic (Unit {0})
plic_init none = pure tt
plic_init (some info) = do
  register_plic_device info
  modify (set_plic info)
  a ← (λ p.
      let (q, h) = kmalloc (8 * info.interrupt_count) p.devices.heap in
      done q (record p { devices = set_heap h p.devices }))
  clear_handlers a
  register_interrupt_handler info.s_interrupt_code
  modify (enable_interrupt info.s_interrupt_code)
  plic_set_prority_threshold 0
