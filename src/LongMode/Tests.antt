-- ===== src/LongMode/Tests.antt =====
-- Two processors, and the kernel's tables and allocators at small values.
use zer0s.Prelude.{◌≡◌, refl, arith, none, some}
use zer0s.Frames.{Frames, memory_init}
use zer0s.Heap.Samples.{screen, cold-IsHeap, busy, first_call}
use zer0s.Kernel.Samples.{handlers, cold, cold-IsCold}
use zer0s.LongMode.{Processor, Labels, Loader, setup_long_mode, start}
use zer0s.LongMode.Start.{Supports}
use zer0s.LongMode.Entry.{IsEntered, start-IsEntered, IsRefused, start-IsRefused}
use zer0s.LongMode.Paging.{translate}
use zer0s.LongMode.Memory.{behind, kmalloc-behind, cleared_at, second_frame, alloc_frame-unmaps}

-- With and without the bit of long mode.
abbrev modern : Processor
modern = record { popfd = λ eflags value. value; cpuid = λ eax. (0x80000008, 0x2C100800) }

abbrev old : Processor
old = record { popfd = λ eflags value. value; cpuid = λ eax. (0x80000004, 0) }

abbrev labels : Labels
labels = record { magic = 0x106000; gdt = 0x106010; stack_high_end = 0x112000 }

abbrev loaded : Loader
loaded = record {
  dwords = λ a. 7;
  text = λ a. 0x20;
  cr0 = 0x11;
  cr3 = 0;
  cr4 = 0;
  efer = 0;
  gdt_limit = 0xFFFF;
  gdt_base = 0x9000;
  cs = 0x10;
  data_segments = 0x18;
}

modern-Supports : Supports modern 2
modern-Supports = record { flips = omega arith; extended = omega arith; long_mode = omega arith }

start-IsEntered_example :
    IsEntered labels 0x2BADB002 0x9500 loaded handlers cold
      (start modern labels 0x2BADB002 0x9500 2 loaded)
start-IsEntered_example =
    start-IsEntered modern labels 0x2BADB002 0x9500 2 loaded handlers cold modern-Supports
      (omega arith) cold-IsCold

start-IsRefused_example :
    IsRefused labels 0x2BADB002 0x9500 loaded (start old labels 0x2BADB002 0x9500 2 loaded)
start-IsRefused_example =
    start-IsRefused old labels 0x2BADB002 0x9500 2 loaded (λ s. s.long_mode refl)

abbrev booted : Frames
booted = (memory_init 0 0 cold.machine.frames screen).0

kmalloc-behind_example : behind labels loaded 0x2000020 ≡ some 0x2000020
unfolding zer0s.Heap.align8
kmalloc-behind_example =
    kmalloc-behind zer0s.Heap.Samples.cold busy 60 0x2000018 0x2000020 screen screen labels loaded
      (omega arith) cold-IsHeap first_call (omega arith) (omega arith) (omega arith)

alloc_frame-unmaps_example :
    (second_frame 0 0 cold.machine.frames screen screen ≡ (setup_long_mode labels loaded).cr3)
    × (translate
          (cleared_at
            (second_frame 0 0 cold.machine.frames screen screen)
            (setup_long_mode labels loaded).dwords)
          (setup_long_mode labels loaded).cr3
          0x100000
        ≡ none)
alloc_frame-unmaps_example =
    alloc_frame-unmaps 0 0 cold.machine.frames screen screen labels loaded 0x100000
      cold-IsCold.memory cold-IsCold.no_pages (omega arith)
