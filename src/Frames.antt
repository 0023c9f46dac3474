-- ===== src/Frames.antt =====
-- The physical frame allocator of kernel/arch/x86_64/memory.c.
pub mod Bitmap
pub mod Count
pub mod Search
pub mod Accounting
pub mod Free
pub mod Init
pub mod Sequence
mod Tests
use zer0s.Prelude.{
  ℕ, zero, suc, ◌+◌, ◌-◌, ◌*◌, ◌/◌, ◌^◌, Bool, true, false, ◌&&◌, ◌||◌, not, List, ltb, leb, ◌==◌,
  if◌then◌else◌, store, for_rounds, u64, bytes,
}
use zer0s.Console.{Console, terminal_writestring, print_hex}
use zer0s.Frames.Bitmap.{Bytes, bitmap_set_bit, bitmap_clear_bit, bitmap_test_bit}

abbrev pub page_size : ℕ
page_size = 4096

abbrev pub bitmap_addr : ℕ
bitmap_addr = 0xC00000

abbrev pub null : ℕ
null = 0

-- The statics of the allocator. `bitmap` holds the bytes from `BITMAP_ADDR` on, to which
-- `frame_bitmap` points once `memory_init` has run; before, it is `NULL`.
pub record Frames : Type 0 where
  pub frame_bitmap : ℕ
  pub bitmap : Bytes
  pub total_pages : ℕ
  pub used_pages : ℕ
  pub free_pages : ℕ

-- `(uint64_t)-1`
abbrev pub no_frame : ℕ
no_frame = 2 ^ 64 - 1

-- The loop of `find_free_frame` from `i` on, with `left` rounds to go.
unfoldable pub find_free_from : Bytes → ℕ → ℕ → ℕ
find_free_from m zero i = no_frame
find_free_from m (suc left) i =
    let rest = find_free_from m left (i + 1) in if not (bitmap_test_bit m i) then i else rest

unfoldable pub find_free_frame : Frames → ℕ
find_free_frame f = find_free_from f.bitmap f.total_pages 0

-- The loop that marks the pages `i`, `i + 1`, … below `total_pages`, `left` of them at most.
unfoldable pub mark_pages : ℕ → ℕ → Frames → Frames
mark_pages zero i f = f
mark_pages (suc left) i f =
    let rest =
      mark_pages left (i + 1)
        (record f { bitmap = bitmap_set_bit f.bitmap i; used_pages = u64 (f.used_pages + 1) }) in
    if ltb i f.total_pages then rest else f

-- A label, a number and an end, as the status messages print them.
unfoldable pub report : List ℕ → ℕ → List ℕ → Console → Console
report label value end t = terminal_writestring end (print_hex value (terminal_writestring label t))

abbrev pub memory_end : ℕ
memory_end = 64 * 1024 * 1024

-- `memory_init` ignores its two arguments. The messages that stand between the steps are printed
-- in their order; none reads what the steps change but as shown.
unfoldable pub memory_init : (mmap_addr mmap_length : ℕ) → Frames → Console → Frames × Console
memory_init mmap_addr mmap_length f t =
    let total_pages = memory_end / page_size in
    let bitmap_size = (total_pages + 7) / 8 in
    let cleared : Bytes = for_rounds (λ i m. store m i 0) bitmap_size 0 f.bitmap in
    let kernel_start_page = 1 * 1024 * 1024 / page_size in
    let kernel_end_page = (bitmap_addr + bitmap_size + page_size - 1) / page_size in
    let marked = mark_pages (kernel_end_page - kernel_start_page) kernel_start_page (record {
      frame_bitmap = bitmap_addr;
      bitmap = cleared;
      total_pages = total_pages;
      used_pages = f.used_pages;
      free_pages = f.free_pages;
    }) in
    let free_pages = u64 (total_pages + 2 ^ 64 - marked.used_pages) in
    let t1 = report (bytes "[Memory] Page size: ") page_size (bytes "\n") (
      terminal_writestring (bytes "[Memory] Total memory: 64 MB\n")
        (terminal_writestring (bytes "\n[Memory] Initializing frame allocator...\n") t)) in
    let t2 =
      report (bytes "[Memory] Bitmap size: ") bitmap_size (bytes " bytes\n")
        (report (bytes "[Memory] Total pages: ") total_pages (bytes "\n") t1) in
    let t3 = terminal_writestring (bytes "[Memory] Bitmap cleared\n") (
      terminal_writestring (bytes "[Memory] Clearing bitmap...\n")
        (report (bytes "[Memory] Bitmap address: ") bitmap_addr (bytes "\n") t2)) in
    let t4 =
      report (bytes " to ") kernel_end_page (bytes "\n")
        (print_hex kernel_start_page (terminal_writestring (bytes "[Memory] Kernel pages: ") t3)) in
    let t5 =
      report (bytes "[Memory] Used pages: ") marked.used_pages (bytes "\n")
        (report (bytes "[Memory] Free pages: ") free_pages (bytes "\n") t4) in
    (
      record marked { free_pages = free_pages },
      terminal_writestring (bytes "[Memory] Frame allocator ready!\n") t5,
    )

-- The address is first; `NULL` is 0.
unfoldable pub alloc_frame : Frames → Console → ℕ × Frames × Console
unfolding find_free_frame
alloc_frame f t =
    if f.frame_bitmap == null
    then (null, f, t)
    else (let frame = find_free_frame f in
        if frame == no_frame
        then (null, f, terminal_writestring (bytes "[ERROR] Out of memory!\n") t)
        else (
          u64 (frame * page_size),
          record f {
            bitmap = bitmap_set_bit f.bitmap frame;
            used_pages = u64 (f.used_pages + 1);
            free_pages = u64 (f.free_pages + 2 ^ 64 - 1);
          },
          t,
        ))

unfoldable pub free_frame : ℕ → Frames → Frames
free_frame addr f =
    if (f.frame_bitmap == null) || (addr == null)
    then f
    else (let frame = addr / page_size in
        if leb f.total_pages frame
        then f
        else if bitmap_test_bit f.bitmap frame
        then record f {
          bitmap = bitmap_clear_bit f.bitmap frame;
          used_pages = u64 (f.used_pages + 2 ^ 64 - 1);
          free_pages = u64 (f.free_pages + 1);
        }
        else f)

unfoldable pub get_free_memory : Frames → ℕ
get_free_memory f = u64 (f.free_pages * page_size)

unfoldable pub memory_status : Frames → Console → Console
unfolding get_free_memory
memory_status f t =
    let head =
      terminal_writestring (bytes "Total: 64 MB\n")
        (terminal_writestring (bytes "\n=== Memory Status ===\n") t) in
    let sizes =
      report (bytes "Used: ") (u64 (f.used_pages * page_size) / 1024 / 1024) (bytes " MB\n")
        (report (bytes "Free: ") (get_free_memory f / 1024 / 1024) (bytes " MB\n") head) in
    let pages = report (bytes "Pages free: ") f.free_pages (bytes "\n") (
      report (bytes "Pages used: ") f.used_pages (bytes "\n")
        (report (bytes "Pages total: ") f.total_pages (bytes "\n") sizes)) in
    terminal_writestring (bytes "====================\n") pages
