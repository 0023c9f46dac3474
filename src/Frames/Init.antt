-- ===== src/Frames/Init.antt =====
-- What `memory_init` sets up.
use zer0s.Prelude.{
  ℕ, zero, suc, ◌+◌, ◌/◌, ◌^◌, ◌≤◌, ◌<◌, ◌≡◌, refl, true, false, ◌&&◌, arith, ltb, leb, lt→ltb, u64,
  if◌then◌else◌, for_rounds, for_rounds_inv, store,
}
use zer0s.Console.{Console}
use zer0s.Frames.{Frames, bitmap_addr, mark_pages, memory_init}
use zer0s.Frames.Bitmap.{
  Bytes, AreBytes, bitmap_set_bit, bitmap_test_bit, bitmap_test_bit-set, bitmap_test_bit-zero,
  bitmap_set_bit-AreBytes,
}
use zer0s.Frames.Count.{count_used, count_used-le, count_used-set}
use zer0s.Frames.Accounting.{is_used, IsConsistent}

count_used-clear_all :
    (m : Bytes) (n : ℕ) → ((i : ℕ) → i < n → bitmap_test_bit m i ≡ false) → count_used m n ≡ 0
unfolding count_used
count_used-clear_all m zero h = refl
count_used-clear_all m (suc n) h =
    ground (arith, h n (omega arith), count_used-clear_all m n (λ i lt. h i (omega arith)))

-- What the marking loop from `i` on leaves, `left` pages later.
record Marked (i left : ℕ) (f g : Frames) : Type 0 where
  fits : AreBytes g.bitmap
  count : g.used_pages ≡ count_used g.bitmap f.total_pages
  added : g.used_pages ≡ f.used_pages + left
  bits : (j : ℕ) → is_used g j ≡ (if leb i j && ltb j (i + left) then true else is_used f j)
  same_total : g.total_pages ≡ f.total_pages
  same_pointer : g.frame_bitmap ≡ f.frame_bitmap

abbrev with_page : ℕ → Frames → Frames
with_page i f = record f { bitmap = bitmap_set_bit f.bitmap i; used_pages = u64 (f.used_pages + 1) }

mark_pages-suc :
    (left i : ℕ) (f : Frames)
    → i < f.total_pages
    → mark_pages (suc left) i f ≡ mark_pages left (i + 1) (with_page i f)
unfolding mark_pages
mark_pages-suc left i f lt = rw (lt→ltb i f.total_pages lt)

mark_pages-Marked :
    (left i : ℕ) (f : Frames)
    → AreBytes f.bitmap
    → f.total_pages ≤ 2 ^ 52
    → i + left ≤ f.total_pages
    → f.used_pages ≡ count_used f.bitmap f.total_pages
    → ((j : ℕ) → i ≤ j → j < f.total_pages → is_used f j ≡ false)
    → Marked i left f (mark_pages left i f)
mark_pages-Marked zero i f fits small le count clear =
    unfold mark_pages in
    record {
      fits = fits;
      count = count;
      added = omega arith;
      bits = λ j. ground arith;
      same_total = refl;
      same_pointer = refl;
    }
mark_pages-Marked (suc left) i f fits small le count clear =
    let set = bitmap_test_bit-set f.bitmap i fits in
    let more = count_used-set f.bitmap i fits f.total_pages (clear i (omega arith) (omega arith)) in
    let full = count_used-le (bitmap_set_bit f.bitmap i) f.total_pages in
    let one_more : u64 (f.used_pages + 1) ≡ f.used_pages + 1 = ground (arith, more, full) in
    let rest : Marked (i + 1) left (with_page i f) (mark_pages left (i + 1) (with_page i f)) =
      mark_pages-Marked left (i + 1) (with_page i f) (bitmap_set_bit-AreBytes f.bitmap i fits) small
        (omega arith) (ground (arith, more, one_more))
        (λ j ge lt. ground (arith, set j, clear j (omega arith) lt)) in
    rw (mark_pages-suc left i f (omega arith)) (record {
      fits = rest.fits;
      count = rest.count;
      added = omega (arith, rest.added, one_more);
      bits = λ j. ground (arith, rest.bits j, set j);
      same_total = rest.same_total;
      same_pointer = rest.same_pointer;
    })

-- The clearing loop zeroes the bytes of the bitmap and leaves bytes bytes.
clear_loop :
    (n : ℕ) (m : Bytes)
    → AreBytes m
    → let z : Bytes = for_rounds (λ i s. store s i 0) n 0 m in
      AreBytes z × ((i : ℕ) → i < n → z i ≡ 0)
clear_loop n m fits =
    for_rounds_inv (λ i s. store s i 0) (λ k (s : Bytes). AreBytes s × ((i : ℕ) → i < k → s i ≡ 0))
      (λ k s (b, h). (λ i. ground (arith, b i), λ i lt. ground (arith, h i))) n 0 n (omega arith) m
      (fits, λ i lt. absurd (omega arith))

-- The first call of `memory_init` (the counter is still 0) makes the allocator ready and
-- consistent: of the 16384 pages, those from 1 MB to the end of the bitmap are used, 2817 of
-- them, and no other.
pub memory_init-IsConsistent :
    (a l : ℕ) (f : Frames) (t : Console)
    → AreBytes f.bitmap
    → f.used_pages ≡ 0
    → let g = (memory_init a l f t).0 in
      IsConsistent g
      × (g.frame_bitmap ≡ bitmap_addr)
      × (g.total_pages ≡ 16384)
      × (g.used_pages ≡ 2817)
      × ((i : ℕ) → i < 16384 → is_used g i ≡ (leb 256 i && ltb i 3073))
unfolding memory_init
memory_init-IsConsistent a l f t fits first =
    let z = clear_loop 2048 f.bitmap fits in
    let start : Frames = record {
      frame_bitmap = bitmap_addr;
      bitmap = for_rounds (λ i m. store m i 0) 2048 0 f.bitmap;
      total_pages = 16384;
      used_pages = f.used_pages;
      free_pages = f.free_pages;
    } in
    let clear : (j : ℕ) → j < 16384 → is_used start j ≡ false =
      λ j lt. bitmap_test_bit-zero start.bitmap j (z.1 (j / 8) (omega arith)) in
    let m : Marked 256 2817 start (mark_pages 2817 256 start) =
      mark_pages-Marked 2817 256 start z.0 (omega arith) (omega arith)
        (omega (arith, count_used-clear_all start.bitmap 16384 clear)) (λ j ge lt. clear j lt) in
    (
      record {
        fits = m.fits;
        small = omega (arith, m.same_total);
        used = rw m.same_total m.count;
        sum = omega (arith, m.added, m.same_total);
      },
      m.same_pointer,
      m.same_total,
      omega (arith, m.added),
      λ i lt. ground (arith, m.bits i, clear i lt),
    )
