-- ===== src/Frames/Accounting.antt =====
-- The counters of the frame allocator agree with its bitmap.
use zer0s.Prelude.{
  ℕ, ◌+◌, ◌*◌, ◌^◌, ◌≤◌, ◌<◌, ◌≡◌, ◌≢◌, ◌⊎◌, inl, inr, true, false, Bool, arith, ◌==◌,
  if◌then◌else◌, bytes, Bool-cases,
}
use zer0s.Console.{Console, terminal_writestring}
use zer0s.Frames.{Frames, null, no_frame, find_free_frame, alloc_frame}
use zer0s.Frames.Bitmap.{
  AreBytes, bitmap_set_bit, bitmap_test_bit, bitmap_test_bit-set, bitmap_set_bit-AreBytes,
}
use zer0s.Frames.Count.{count_used, count_used-le, count_used-set}
use zer0s.Frames.Search.{IsFirstFree, IsFull, find_free_frame_lem}

abbrev pub is_used : Frames → ℕ → Bool
is_used f i = bitmap_test_bit f.bitmap i

-- The counters count the set and the clear bits of the pages, which fit the address space.
pub record IsConsistent (f : Frames) : Type 0 where
  pub fits : AreBytes f.bitmap
  pub small : f.total_pages ≤ 2 ^ 52
  pub used : f.used_pages ≡ count_used f.bitmap f.total_pages
  pub sum : f.used_pages + f.free_pages ≡ f.total_pages

-- A successful allocation: the lowest free frame is now used, and nothing else has changed.
pub record Allocated (f : Frames) (t : Console) (out : ℕ × Frames × Console) : Type 0 where
  pub frame : ℕ
  pub lowest : IsFirstFree f.bitmap 0 f.total_pages frame
  pub address : out.0 ≡ frame * 4096
  pub marked : (i : ℕ) → is_used out.1 i ≡ (if frame == i then true else is_used f i)
  pub one_more : out.1.used_pages ≡ f.used_pages + 1
  pub one_less : out.1.free_pages + 1 ≡ f.free_pages
  pub same_total : out.1.total_pages ≡ f.total_pages
  pub same_pointer : out.1.frame_bitmap ≡ f.frame_bitmap
  pub quiet : out.2 ≡ t

-- A failed one: every frame is used, the result is `NULL`, and only the message is written.
pub record Exhausted (f : Frames) (t : Console) (out : ℕ × Frames × Console) : Type 0 where
  pub full : (i : ℕ) → i < f.total_pages → is_used f i ≡ true
  pub failed : out.0 ≡ null
  pub unchanged : out.1 ≡ f
  pub message : out.2 ≡ terminal_writestring (bytes "[ERROR] Out of memory!\n") t

module _ {f : Frames} (t : Console) (ok : IsConsistent f) (ready : f.frame_bitmap ≢ null) where
  -- The counters before an allocation that finds a frame.
  room : IsFirstFree f.bitmap 0 f.total_pages (find_free_frame f) → f.used_pages < f.total_pages
  room r =
      let n = find_free_frame f in
      let more = count_used-set f.bitmap n ok.fits f.total_pages r.clear in
      ground
        (arith, more, r.below, ok.used, count_used-le (bitmap_set_bit f.bitmap n) f.total_pages)

  alloc_frame-Allocated :
      IsFirstFree f.bitmap 0 f.total_pages (find_free_frame f) → Allocated f t (alloc_frame f t)
  unfolding alloc_frame
  alloc_frame-Allocated r =
      let n = find_free_frame f in
      let lt = room r in
      record {
        frame = n;
        lowest = r;
        address = ground (arith, r.below);
        marked = λ i. ground (arith, r.below, bitmap_test_bit-set f.bitmap n ok.fits i);
        one_more = ground (arith, r.below, lt);
        one_less = ground (arith, r.below, lt, ok.sum);
        same_total = ground (arith, r.below);
        same_pointer = ground (arith, r.below);
        quiet = ground (arith, r.below);
      }

  alloc_frame-Exhausted :
      IsFull f.bitmap 0 f.total_pages (find_free_frame f) → Exhausted f t (alloc_frame f t)
  unfolding alloc_frame
  alloc_frame-Exhausted r = record {
    full = λ i lt. r.full i (omega arith) lt;
    failed = ground (arith, r.failed);
    unchanged = ground (arith, r.failed);
    message = ground (arith, r.failed);
  }

  -- On an allocator that is ready and consistent, `alloc_frame` takes the lowest free frame and
  -- counts it, or all frames are used, and then it returns `NULL`, says so, and changes nothing.
  pub alloc_frame_lem : Allocated f t (alloc_frame f t) ⊎ Exhausted f t (alloc_frame f t)
  alloc_frame_lem = elim (find_free_frame_lem f) [
    | inl r ↦ inl (alloc_frame-Allocated r)
    | inr r ↦ inr (alloc_frame-Exhausted r)
  ]

-- `alloc_frame` keeps the counters in step with the bitmap, ready or not.
pub alloc_frame-IsConsistent :
    {f : Frames} (t : Console) → IsConsistent f → IsConsistent (alloc_frame f t).1
unfolding alloc_frame
alloc_frame-IsConsistent {f} t ok = elim (Bool-cases (f.frame_bitmap == null)) [
  | inl e ↦ rw e ok
  | inr e ↦ elim (find_free_frame_lem f) [
    | inr r ↦ rw (e, r.failed) ok
    | inl r ↦
        let n = find_free_frame f in
        let lt = room t ok (ground arith) r in
        let hit : (n == no_frame) ≡ false = ground (arith, r.below, ok.small) in
        rw (e, hit)
          (record {
            fits = bitmap_set_bit-AreBytes f.bitmap n ok.fits;
            small = ok.small;
            used = ground (
              arith,
              lt,
              r.below,
              ok.used,
              ok.small,
              count_used-set f.bitmap n ok.fits f.total_pages r.clear,
            );
            sum = ground (arith, lt, ok.sum, ok.small);
          })
  ]
]
