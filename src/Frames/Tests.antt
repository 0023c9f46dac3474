-- ===== src/Frames/Tests.antt =====
-- The frame allocator as it stands after `memory_init`.
use zer0s.Prelude.{ℕ, ◌*◌, ◌<◌, ◌≡◌, ◌≢◌, ◌⊎◌, refl, false, ◌&&◌, arith, ltb, leb}
use zer0s.Console.{Console}
use zer0s.Frames.{
  Frames, null, bitmap_addr, find_free_from, find_free_frame, memory_init, alloc_frame, free_frame,
}
use zer0s.Frames.Bitmap.{bitmap_set_bit, bitmap_test_bit, bitmap_test_bit-set}
use zer0s.Frames.Count.{count_used}
use zer0s.Frames.Search.{IsFirstFree, IsFull, find_free_frame_lem}
use zer0s.Frames.Accounting.{is_used, IsConsistent, Allocated, Exhausted, alloc_frame_lem}
use zer0s.Frames.Free.{free_frame-IsConsistent, free_frame-alloc_frame}
use zer0s.Frames.Init.{memory_init-IsConsistent}
use zer0s.Frames.Sequence.{alloc_frames, nth_frame, free_frames, alloc_frames-nth_frame}

abbrev screen : Console
screen = record { vga = λ i. 0; row = 0; col = 0 }

abbrev cold : Frames
cold = record { frame_bitmap = 0; bitmap = λ i. 0; total_pages = 0; used_pages = 0; free_pages = 0 }

-- Two pages of which the first is used: a state small enough to run.
abbrev small : Frames
small = record {
  frame_bitmap = bitmap_addr;
  bitmap = λ i. 1;
  total_pages = 2;
  used_pages = 1;
  free_pages = 1;
}

small_finds_one : find_free_frame small ≡ 1
unfolding find_free_frame find_free_from bitmap_test_bit
small_finds_one = refl

small_allocates : (alloc_frame small screen).0 ≡ 4096
unfolding alloc_frame find_free_from bitmap_test_bit
small_allocates = refl

memory_init-IsConsistent_example :
    let g = (memory_init 0 0 cold screen).0 in
    IsConsistent g
    × (g.frame_bitmap ≡ bitmap_addr)
    × (g.total_pages ≡ 16384)
    × (g.used_pages ≡ 2817)
    × ((i : ℕ) → i < 16384 → is_used g i ≡ (leb 256 i && ltb i 3073))
memory_init-IsConsistent_example = memory_init-IsConsistent 0 0 cold screen (λ i. omega arith) refl

abbrev booted : Frames
booted = (memory_init 0 0 cold screen).0

booted-IsConsistent : IsConsistent booted
booted-IsConsistent = memory_init-IsConsistent_example.0

booted_ready : booted.frame_bitmap ≢ null
booted_ready = omega (arith, memory_init-IsConsistent_example.1)

booted_pages : 0 < booted.total_pages
booted_pages = omega (arith, memory_init-IsConsistent_example.2)

booted_zero_free : is_used booted 0 ≡ false
booted_zero_free = memory_init-IsConsistent_example.4 0 (omega arith)

small-IsConsistent : IsConsistent small
unfolding count_used bitmap_test_bit
small-IsConsistent = record {
  fits = λ i. omega arith;
  small = omega arith;
  used = refl;
  sum = refl;
}

-- Both pages used.
abbrev full : Frames
full = record small { bitmap = λ i. 3; used_pages = 2; free_pages = 0 }

full-IsConsistent : IsConsistent full
unfolding count_used bitmap_test_bit
full-IsConsistent = record { fits = λ i. omega arith; small = omega arith; used = refl; sum = refl }

bitmap_test_bit-set_example :
    bitmap_test_bit (bitmap_set_bit small.bitmap 9) 10 ≡ bitmap_test_bit small.bitmap 10
bitmap_test_bit-set_example = bitmap_test_bit-set small.bitmap 9 (λ i. omega arith) 10

find_free_frame_lem_example :
    IsFirstFree small.bitmap 0 2 (find_free_frame small)
    ⊎ IsFull small.bitmap 0 2 (find_free_frame small)
find_free_frame_lem_example = find_free_frame_lem small

alloc_frame_lem_example :
    Allocated full screen (alloc_frame full screen)
    ⊎ Exhausted full screen (alloc_frame full screen)
alloc_frame_lem_example = alloc_frame_lem screen full-IsConsistent (omega arith)

free_frame-IsConsistent_example : IsConsistent (free_frame 0x100000 booted)
free_frame-IsConsistent_example = free_frame-IsConsistent 0x100000 booted-IsConsistent

free_frame-alloc_frame_example :
    let (addr, g, _) = alloc_frame small screen in
    let h = free_frame addr g in
    (h.used_pages ≡ 1) × (h.free_pages ≡ 1) × ((i : ℕ) → is_used h i ≡ is_used small i)
free_frame-alloc_frame_example =
    free_frame-alloc_frame screen small-IsConsistent (omega arith) (omega (arith, small_allocates))

alloc_frames-nth_frame_example :
    let (g, v) = alloc_frames 300 (memory_init 0 0 cold screen).0 screen in
    ((300 < free_frames) × ((alloc_frame g v).0 ≡ nth_frame 300 * 4096))
    ⊎ ((300 ≡ free_frames) × Exhausted g v (alloc_frame g v))
alloc_frames-nth_frame_example =
    alloc_frames-nth_frame 0 0 cold screen screen (λ i. omega arith) refl 300 (omega arith)
