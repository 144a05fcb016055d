-- ===== src/Driver/Device/Defs.antt =====
-- The registry of devices, with the heap and the mappings that it is made of. A `struct Device *` is an index
-- in `devices.array`. A device register is read and written through the address that it is mapped at; what
-- a read gives is the device's answer to the accesses so far.
use mos_riscv.Prelude.{
  ℕ, zero, suc, ◌+◌, ◌-◌, ◌*◌, ◌%◌, ◌^◌, Bool, true, false, ◌&&◌, Option, none, some, List, [], ◌∷◌,
  ◌++◌, length, ◌==◌, ltb, leb, if◌then◌else◌,
}
use mos_riscv.Prelude.Run.{Run, Cmd, done, stopped, wild, panic, undefined, modify, ◌>>=◌, ◌>>◌}
use mos_riscv.Kern.Kmalloc.Defs.{Heap, Freed, freed, panicked, wild as wild_free, kmalloc, kfree}
use mos_riscv.Kern.Kmmap.Defs.{Kmmap, kmmap_alloc}
use mos_riscv.Kern.Pmap.Range.{round_page}

-- `struct DeviceMMIORange` without its link.
pub record Range : Type 0 where
  pub pa : ℕ
  pub len : ℕ
  pub mapped_va : ℕ

-- `struct Device`; the type is the list of its bytes before the 0, `device_data` an address.
pub record Device : Type 0 where
  pub device_type : List ℕ
  pub device_id : ℕ
  pub mmio_range_list : List Range
  pub device_data : ℕ
  pub device_data_len : ℕ

-- An access to a register: its width in bytes, its address, and the value written.
pub data Mmio : Type 0 where
  wrote : ℕ → ℕ → ℕ → Mmio
  was_read : ℕ → ℕ → Mmio

-- The globals of kern/device.c, the heap, the mappings, and the accesses so far, newest first.
pub record Devices : Type 0 where
  pub array : List Device
  pub array_address : ℕ
  pub capacity : ℕ
  pub global_device_id : ℕ
  pub heap : Heap
  pub kmmap : Kmmap
  pub mmio : List Mmio

abbrev pub device_type_len : ℕ
device_type_len = 32

-- sizeof(struct Device) and sizeof(struct DeviceMMIORange)
abbrev pub device_size : ℕ
device_size = 64

abbrev pub range_size : ℕ
range_size = 32

-- `devices.capacity` after it has next_capacity.
unfoldable pub next_capacity : ℕ → ℕ
next_capacity capacity = if capacity == 0 then 2 else capacity * 2 % 2 ^ 64

-- The result of `kfree`.
unfoldable pub after_free : Freed → Cmd Devices (Unit {0})
after_free (freed h) d = done tt (record d { heap = h })
after_free panicked d = stopped
after_free wild_free d = wild

-- The old array, if there is one, is copied and given back.
unfoldable pub free_old : Cmd Devices (Unit {0})
free_old d = if d.array_address == 0 then done tt d else after_free (kfree d.array_address d.heap) d

unfoldable pub set_heap : Heap → Devices → Devices
set_heap h d = record d { heap = h }

-- The array moves to a new address.
unfoldable pub move_array : Option ℕ → Cmd Devices (Unit {0})
move_array none = panic
move_array (some p) = do free_old; modify (λ d. record d { array_address = p })

unfoldable pub resize : Cmd Devices (Unit {0})
resize d =
    let capacity = next_capacity d.capacity in
    let (p, h) = kmalloc (capacity * device_size % 2 ^ 64) d.heap in
    move_array p (record d { capacity = capacity; heap = h })

-- The slot behind the last device is filled in.
unfoldable pub fill_slot : List ℕ → ℕ → ℕ → Cmd Devices ℕ
fill_slot device_type contents data_len d =
    if leb device_type_len (length device_type)
    then wild
    else done (length d.array) (record d {
      array =
          d.array
          ++ (record {
            device_type = device_type;
            device_id = d.global_device_id;
            mmio_range_list = [];
            device_data = contents;
            device_data_len = data_len;
          }
              ∷ []);
      global_device_id = (d.global_device_id + 1) % 2 ^ 64;
    })

unfoldable pub add_device : List ℕ → ℕ → ℕ → Cmd Devices ℕ
add_device device_type contents data_len = do
  λ d. if leb d.capacity (length d.array) then resize d else done tt d
  fill_slot device_type contents data_len

-- `kmmap_alloc` on the mappings of the registry.
unfoldable pub lift_kmmap : Run Kmmap (Option ℕ) → Cmd Devices (Option ℕ)
lift_kmmap (done a k) d = done a (record d { kmmap = k })
lift_kmmap stopped d = stopped
lift_kmmap wild d = wild

-- A range is hung in front of those of device `i`.
unfoldable pub push_range : ℕ → Range → List Device → List Device
push_range i r [] = []
push_range zero r (v ∷ vs) = record v { mmio_range_list = r ∷ v.mmio_range_list } ∷ vs
push_range (suc i) r (v ∷ vs) = v ∷ push_range i r vs

unfoldable pub map_range : ℕ → ℕ → ℕ → Option ℕ → Cmd Devices (Unit {0})
map_range i pa len none = panic
map_range i pa len (some va) =
    modify (λ d. record d {
      array = push_range i (record { pa = pa; len = len; mapped_va = va }) d.array;
    })

-- The header of the range is written through NULL if the heap is full. `PTE_V | PTE_RW | PTE_GLOBAL`
unfoldable pub range_at : ℕ → ℕ → ℕ → Option ℕ → Cmd Devices (Unit {0})
range_at i pa len none = undefined
range_at i pa len (some p) = do
  va ← (λ d. lift_kmmap (kmmap_alloc pa (round_page len) 0x27 d.kmmap) d)
  map_range i pa len va

unfoldable pub add_mmio_range : ℕ → ℕ → ℕ → Cmd Devices (Unit {0})
add_mmio_range i pa len d =
    let (p, h) = kmalloc range_size d.heap in range_at i pa len p (set_heap h d)

-- `pa` lies in the range.
unfoldable pub covers : ℕ → Range → Bool
covers pa r = leb r.pa pa && ltb pa ((r.pa + r.len) % 2 ^ 64)

-- The first range that `pa` lies in.
unfoldable pub find_range : ℕ → List Range → Option Range
find_range pa [] = none
find_range pa (r ∷ rs) = let rest = find_range pa rs in if covers pa r then some r else rest

-- The address that a range gives to `pa`, unless that is NULL.
unfoldable pub mapped_at : ℕ → Option Range → Option ℕ
mapped_at pa none = none
mapped_at pa (some r) =
    let va = (r.mapped_va + (pa - r.pa)) % 2 ^ 64 in if va == 0 then none else some va

-- `get_mapped_pa`; `none` where it panics.
unfoldable pub get_mapped_pa : Device → ℕ → Option ℕ
get_mapped_pa v pa = mapped_at pa (find_range pa v.mmio_range_list)

-- `strcmp(a, b) == 0`
unfoldable pub same_type : List ℕ → List ℕ → Bool
same_type [] [] = true
same_type [] (b ∷ rest_b) = false
same_type (a ∷ rest_a) [] = false
same_type (a ∷ rest_a) (b ∷ rest_b) = (a == b) && same_type rest_a rest_b

-- The devices that `find_device_by_type` copies out, at most `left` of them.
unfoldable pub find_from : ℕ → List ℕ → List Device → List Device
find_from zero device_type vs = []
find_from (suc left) device_type [] = []
find_from (suc left) device_type (v ∷ vs) =
    let found = find_from left device_type vs in
    let rest = find_from (suc left) device_type vs in
    if same_type v.device_type device_type then v ∷ found else rest

unfoldable pub find_device_by_type : List ℕ → ℕ → Devices → List Device
find_device_by_type device_type max_count d = find_from max_count device_type d.array

unfoldable pub count_type : List ℕ → List Device → ℕ
count_type device_type [] = 0
count_type device_type (v ∷ vs) =
    let rest = count_type device_type vs in
    if same_type v.device_type device_type then rest + 1 else rest

unfoldable pub get_device_count : List ℕ → Devices → ℕ
get_device_count device_type d = count_type device_type d.array

-- The loop of `user_find_device_by_type`: the device of that type with number `idx`.
unfoldable pub nth_of_type : List ℕ → ℕ → ℕ → List Device → Option Device
nth_of_type device_type idx count [] = none
nth_of_type device_type idx count (v ∷ vs) =
    let next = nth_of_type device_type idx (count + 1) vs in
    let rest = nth_of_type device_type idx count vs in
    if same_type v.device_type device_type then if count == idx then some v else next else rest

-- `is_illegal_device_pa_range` of kern/syscall_all.c: the device is what goes out; `none` is illegal.
unfoldable pub holder : ℕ → List Device → Option Device
holder pa [] = none
holder pa (v ∷ vs) =
    let rest = holder pa vs in
    elim (find_range pa v.mmio_range_list) [ none ↦ rest | some r ↦ some v ]

unfoldable pub legal_device : ℕ → ℕ → Devices → Option Device
legal_device pa len d = if ltb ((pa + len) % 2 ^ 64) pa then none else holder pa d.array

-- `iowrite8`, `iowrite16`, `iowrite32` and `iowrite64`, by their width in bytes.
unfoldable pub write_at : ℕ → ℕ → Option ℕ → Cmd Devices (Unit {0})
write_at width value none = panic
write_at width value (some va) = modify (λ d. record d { mmio = wrote width va value ∷ d.mmio })

unfoldable pub iowrite : ℕ → Device → ℕ → ℕ → Cmd Devices (Unit {0})
iowrite width v value pa = write_at width (value % 256 ^ width) (get_mapped_pa v pa)

-- What devices answer to a read of a width at an address, after the accesses so far.
abbrev pub Responses : Type 0
Responses = List Mmio → ℕ → ℕ → ℕ

unfoldable pub read_at : Responses → ℕ → Option ℕ → Cmd Devices ℕ
read_at hw width none = panic
read_at hw width (some va) =
    λ d. done (hw d.mmio width va % 256 ^ width) (record d { mmio = was_read width va ∷ d.mmio })

-- `ioread8`, `ioread16`, `ioread32` and `ioread64`.
unfoldable pub ioread : Responses → ℕ → Device → ℕ → Cmd Devices ℕ
ioread hw width v pa = read_at hw width (get_mapped_pa v pa)
