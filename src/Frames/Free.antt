-- ===== src/Frames/Free.antt =====
-- `free_frame`, alone and behind `alloc_frame`.
use zer0s.Prelude.{
  ℕ, ◌+◌, ◌/◌, ◌≤◌, ◌<◌, ◌≡◌, ◌≢◌, true, false, arith, ◌==◌, if◌then◌else◌, inl, inr,
}
use zer0s.Console.{Console}
use zer0s.Frames.{Frames, null, page_size, alloc_frame, free_frame}
use zer0s.Frames.Bitmap.{bitmap_test_bit-clear, bitmap_clear_bit-AreBytes}
use zer0s.Frames.Count.{count_used-le, count_used-clear}
use zer0s.Frames.Accounting.{is_used, IsConsistent, alloc_frame_lem, alloc_frame-IsConsistent}

module _ {f : Frames} (addr : ℕ) (ok : IsConsistent f) where
  -- On a consistent allocator `free_frame` keeps the counters in step with the bitmap, for every
  -- address.
  pub free_frame-IsConsistent : IsConsistent (free_frame addr f)
  unfolding free_frame
  free_frame-IsConsistent =
      let n = addr / page_size in
      ground (
        arith,
        ok.small,
        ok.used,
        ok.sum,
        bitmap_clear_bit-AreBytes f.bitmap n ok.fits,
        count_used-clear f.bitmap n ok.fits f.total_pages,
        count_used-le f.bitmap f.total_pages,
      )

  -- On a ready and consistent allocator a frame in use that is not frame 0 is released: its bit
  -- alone is cleared, and one page moves from the used to the free ones.
  pub free_frame_releases :
      f.frame_bitmap ≢ null
      → 4096 ≤ addr
      → addr / 4096 < f.total_pages
      → is_used f (addr / 4096) ≡ true
      → let g = free_frame addr f in
        (g.used_pages + 1 ≡ f.used_pages)
        × (g.free_pages ≡ f.free_pages + 1)
        × ((i : ℕ) → is_used g i ≡ (if addr / 4096 == i then false else is_used f i))
  unfolding free_frame
  free_frame_releases ready page lt used =
      let n = addr / page_size in
      let clear = count_used-clear f.bitmap n ok.fits f.total_pages used in
      (
        ground (arith, clear, ok.used, ok.sum, ok.small),
        ground (arith, clear, ok.used, ok.sum, ok.small),
        λ i. ground (arith, bitmap_test_bit-clear f.bitmap n ok.fits i),
      )

module _ {f : Frames} (t : Console) (ok : IsConsistent f) (ready : f.frame_bitmap ≢ null) where
  -- On an allocator that is ready and consistent, freeing what an allocation returned, when that is
  -- not `NULL`, restores the counters and every bit.
  pub free_frame-alloc_frame :
      (alloc_frame f t).0 ≢ null
      → let (addr, g, _) = alloc_frame f t in
        let h = free_frame addr g in
        (h.used_pages ≡ f.used_pages)
        × (h.free_pages ≡ f.free_pages)
        × ((i : ℕ) → is_used h i ≡ is_used f i)
  free_frame-alloc_frame got = elim (alloc_frame_lem t ok ready) [
    | inr e ↦ absurd (got e.failed)
    | inl a ↦
        let out = alloc_frame f t in
        let n = a.frame in
        let page : 4096 ≤ out.0 = ground (arith, a.address, got) in
        let index : out.0 / 4096 ≡ n = omega (arith, a.address) in
        let taken : is_used out.1 (out.0 / 4096) ≡ true =
          ground (arith, a.marked (out.0 / 4096), index) in
        let back =
          free_frame_releases out.0 (alloc_frame-IsConsistent t ok) (rw a.same_pointer ready) page
            (omega (arith, index, a.same_total, a.lowest.below)) taken in
        (
          omega (arith, back.0, a.one_more),
          omega (arith, back.1, a.one_less),
          λ i. ground (arith, back.2 i, index, a.marked i, a.lowest.clear),
        )
  ]

  -- Frame 0 is lost: if it is free, the allocation marks it as used and returns `NULL`, and
  -- freeing that changes nothing.
  pub alloc_frame_loses_frame_zero :
      0 < f.total_pages
      → is_used f 0 ≡ false
      → let (addr, g, _) = alloc_frame f t in
        (addr ≡ null)
        × (is_used g 0 ≡ true)
        × (g.used_pages ≡ f.used_pages + 1)
        × (free_frame addr g ≡ g)
  unfolding free_frame
  alloc_frame_loses_frame_zero pos free = elim (alloc_frame_lem t ok ready) [
    | inr e ↦ cc (e.full 0 pos)
    | inl a ↦
        let first : a.frame ≡ 0 = grind (arith, a.lowest.first) in
        let zero_addr : (alloc_frame f t).0 ≡ 0 = omega (arith, a.address) in
        (zero_addr, ground (arith, a.marked 0), a.one_more, ground arith)
  ]
