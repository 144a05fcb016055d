-- ===== src/Tests/Devices.antt =====
-- Mappings of devices, interrupts of processes, and pages that are shared copy-on-write.
use mos_riscv.Prelude.{
  ℕ, ◌+◌, ◌*◌, ◌/◌, ◌≡◌, ◌≢◌, refl, true, false, none, some, [], ◌∷◌, has, ◌==◌, ◌&&◌,
  if◌then◌else◌, arith, Bool, Option, ap,
}
use mos_riscv.Prelude.Run.{KeepsUnless, Returns, Keeps}
use mos_riscv.Kern.Mmu.{pte_ppn, is_valid, is_non_leaf, ppn2page, p1x, p2x, p3x, page_size}
use mos_riscv.Kern.Pmap.Mem.{Mem, Entry, entry, load}
use mos_riscv.Kern.Pmap.Range.{round_page}
use mos_riscv.Kern.Pmap.Supply.{IsSupply}
use mos_riscv.Kern.Kmalloc.Defs.{heap_begin, kmalloc, alloc_in}
use mos_riscv.Kern.Kmmap.Defs.{
  Kmmap, at, astray, kmmap_count, probe, scan, after_probe, kmmap_alloc,
}
use mos_riscv.Kern.Kmmap.FirstFit.{IsAnswer, scan-IsAnswer}
use mos_riscv.Kern.Kmmap.RoundTrip.{MapPanics, Restores, kmmap_free-kmmap_alloc}
use mos_riscv.Kern.Fault.Cow.{do_cow}
use mos_riscv.Kern.Fault.Copied.{IsShared, IsCopied, do_cow-IsCopied}
use mos_riscv.Kern.Board.{Machine, Board}
use mos_riscv.Kern.Interrupt.Defs.{handle_env_interrupt}
use mos_riscv.Kern.Interrupt.Queue.{QueueKept, handle_env_interrupt-IsQueue}
use mos_riscv.Driver.Device.Defs.{Device, Devices, legal_device, add_mmio_range, range_size}
use mos_riscv.Driver.Device.Mapped.{
  IsMapped, Translates, legal_device-Translates, add_mmio_range-IsMapped,
}
use mos_riscv.Tests.Processes.{kernel, kernel-IsQueue, frame}

-- The first page of the window is taken.
abbrev bmap : ℕ → ℕ
bmap i = if i == 0 then 1 else 0

scan-IsAnswer_example : IsAnswer 2 bmap (scan kmmap_count 0 2 bmap)
scan-IsAnswer_example = scan-IsAnswer 2 bmap

scan-at : scan kmmap_count 0 2 bmap ≡ at 1
unfolding scan probe after_probe
scan-at = refl

abbrev kmmap : Kmmap
kmmap = record { kernel = kernel; kmmap_bmap = bmap }

scan_one : scan kmmap_count 0 (4096 / page_size) bmap ≡ at 1
unfolding scan probe after_probe
scan_one = refl

fits : (n : ℕ) → scan kmmap_count 0 n bmap ≡ at 1 → scan kmmap_count 0 n bmap ≢ astray
fits n e f = cc (e, f)

kmmap_free-kmmap_alloc_example :
    KeepsUnless
      (MapPanics 0x10000000 4096 0x27 kmmap)
      (Restores 4096 bmap)
      (kmmap_alloc 0x10000000 4096 0x27 kmmap)
kmmap_free-kmmap_alloc_example =
    kmmap_free-kmmap_alloc 0x10000000 4096 0x27 kmmap refl (fits (4096 / page_size) scan_one)

-- A serial port whose registers are mapped at the first page of the window.
abbrev serial : Device
serial = record {
  device_type = 0x73 ∷ [];
  device_id = 0;
  mmio_range_list = record { pa = 0x10000000; len = 0x100; mapped_va = 0xFFFFFFC0E0000000 } ∷ [];
  device_data = 0;
  device_data_len = 0;
}

abbrev devices : Devices
devices = record {
  array = serial ∷ [];
  array_address = 0xFFFFFFC0A0000028;
  capacity = 2;
  global_device_id = 1;
  heap = record { blocks = heap_begin ∷ []; total_requested_bytes = 0; total_free_bytes = 0 };
  kmmap = kmmap;
  mmio = [];
}

devices-IsMapped : IsMapped devices
devices-IsMapped = (((omega arith, omega arith, omega arith), tt), tt)

legal_device-Translates_example : Translates 0x10000003 (legal_device 0x10000003 1 devices)
legal_device-Translates_example = legal_device-Translates 0x10000003 1 devices devices-IsMapped

is_there : Option ℕ → Bool
is_there none = false
is_there (some p) = true

room : (kmalloc range_size devices.heap).0 ≢ none
unfolding is_there
room e =
    let t : is_there (kmalloc range_size devices.heap).0 ≡ true = unfold kmalloc alloc_in in refl in
    cc (t, ap is_there e)

scan_round : scan kmmap_count 0 (round_page 0x100 / page_size) bmap ≡ at 1
unfolding scan probe after_probe round_page
scan_round = refl

add_mmio_range-IsMapped_example :
    Keeps (λ _ d'. IsMapped d') (add_mmio_range 0 0x10001000 0x100 devices)
add_mmio_range-IsMapped_example =
    add_mmio_range-IsMapped 0 0x10001000 0x100 devices room (omega arith) (omega arith)
      (fits (round_page 0x100 / page_size) scan_round) devices-IsMapped

-- A machine that copies nothing, and devices that answer 10.
abbrev machine : Machine
machine = record {
  get_frame = λ m pgdir va. frame;
  put_frame = λ pgdir va tf m. m;
  get_value = λ m pgdir va n. 0;
  put_value = λ pgdir va n v m. m;
  get_bytes = λ m pgdir va n. [];
  put_device = λ pgdir va v n m. m;
  put_processes = λ pgdir va l m. m;
  copy = λ pgdir dst src n m. m;
  env_tf_address = λ i. 0xFFFFFFC000300000 + i * 512;
  local = 0xFFFFFFC000FFF000;
  kernel_buffer = 0xFFFFFFC000400000;
  kernel_buffer_size = 4096;
  answers = λ log width va. 10;
  console_read = λ log. 0x61;
  no_result = 0;
}

-- Interrupt 10 belongs to environment 4, which waits.
abbrev board : Board
board = record {
  plic = record {
    devices = devices;
    plic_device = some serial;
    plic_base_pa = 0x10000000;
    plic_interrupt_count = 96;
    interrupt_handler = λ code. code == 10;
    interrupt_handler_map = λ code. code == 9;
    sie = 0x222;
  };
  interrupt_code_to_envid = λ code. if code == 10 then 2052 else 0;
  console = [];
}

handle_env_interrupt-IsQueue_example : Keeps QueueKept (handle_env_interrupt machine 10 board)
handle_env_interrupt-IsQueue_example = handle_env_interrupt-IsQueue machine 10 board kernel-IsQueue

-- Page 7 is mapped copy-on-write at an address, through tables in the pages 5 and 6.
abbrev pgdir : ℕ
pgdir = 0x80004

abbrev addr : ℕ
addr = 0x400000

abbrev shared : Mem
shared = record {
  free = 2 ∷ 3 ∷ [];
  ref = λ i. if has i (2 ∷ 3 ∷ []) then 0 else 2;
  word = λ f i.
      if (f == 0x80004) && (i == 0)
      then 0x80005 * 1024 + 1
      else if (f == 0x80005) && (i == 2)
      then 0x80006 * 1024 + 1
      else if (f == 0x80006) && (i == 0)
      then 0x80007 * 1024 + 0x213
      else 0;
  flushed = [];
}

abbrev page_7 : Entry
page_7 = entry 0x80006 0

shared-IsSupply : IsSupply shared
shared-IsSupply = record {
  unused = λ i h. ground arith;
  in_range = λ i h. ground arith;
  once = (refl, (refl, tt));
}

shared-IsShared : IsShared pgdir addr 7 page_7 shared
unfolding load is_valid is_non_leaf pte_ppn ppn2page p1x p2x p3x
shared-IsShared = record {
  mapped = record {
    first_valid = refl;
    first_table = refl;
    second_valid = refl;
    second_table = refl;
    third = refl;
    apart_root = λ e. absurd (omega arith);
    apart_second = λ e. absurd (omega arith);
  };
  valid = refl;
  page = refl;
  counted = omega arith;
  supply = shared-IsSupply;
  root_used = λ i h e. absurd (ground arith);
  second_used = λ i h e. absurd (ground arith);
  third_used = λ i h e. absurd (ground arith);
}

do_cow-IsCopied_example :
    Returns (λ _ m'. IsCopied pgdir addr 7 2 page_7 shared m') (do_cow pgdir 5 addr shared)
do_cow-IsCopied_example =
    do_cow-IsCopied pgdir 5 addr 7 page_7 shared 2 (3 ∷ []) shared-IsShared refl
