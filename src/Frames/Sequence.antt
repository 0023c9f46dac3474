-- ===== src/Frames/Sequence.antt =====
-- The allocations that follow one another after `memory_init`.
use zer0s.Prelude.{
  ℕ, zero, suc, ◌+◌, ◌*◌, ◌≤◌, ◌<◌, ◌≡◌, ◌≢◌, ◌⊎◌, sym, ◌∙◌, inl, inr, arith, true, false, ◌==◌,
  ◌&&◌, ◌||◌, leb, ltb, if◌then◌else◌,
}
use mathlib.Core.Path.{subst}
use native.Mathlib.Decide.{dec_lt}
use zer0s.Console.{Console}
use zer0s.Frames.{Frames, null, memory_init, alloc_frame}
use zer0s.Frames.Bitmap.{AreBytes}
use zer0s.Frames.Accounting.{
  is_used, IsConsistent, Allocated, Exhausted, alloc_frame_lem, alloc_frame-IsConsistent,
}
use zer0s.Frames.Init.{memory_init-IsConsistent}

-- The allocation of a frame below which all are used.
record AllocatedAt (n : ℕ) (g : Frames) (t : Console) : Type 0 where
  result : Allocated g t (alloc_frame g t)
  frame : result.frame ≡ n
  address : (alloc_frame g t).0 ≡ n * 4096

alloc_frame-at :
    {g : Frames} (t : Console) (n : ℕ)
    → IsConsistent g
    → g.frame_bitmap ≢ null
    → n < g.total_pages
    → ((j : ℕ) → j < n → is_used g j ≡ true)
    → is_used g n ≡ false
    → AllocatedAt n g t
alloc_frame-at {g} t n ok ready below used free = elim (alloc_frame_lem t ok ready) [
  | inr e ↦ absurd (cc (e.full n below))
  | inl x ↦
      let same : x.frame ≡ n =
        grind (arith, x.lowest.first n (omega arith), x.lowest.clear, used x.frame) in
      record { result = x; frame = same; address = omega (arith, x.address, same) }
]

-- `n` calls of `alloc_frame`, one after the other.
unfoldable pub alloc_frames : ℕ → Frames → Console → Frames × Console
alloc_frames zero f t = (f, t)
alloc_frames (suc n) f t =
    let (g, u) = alloc_frames n f t in let (addr, h, v) = alloc_frame g u in (h, v)

-- The frame that is the `n`th, counted from 0, of those that are neither kernel nor bitmap.
abbrev pub nth_frame : ℕ → ℕ
nth_frame n = if ltb n 256 then n else n + 2817

abbrev pub free_frames : ℕ
free_frames = 13567

-- The allocator once `n` frames have been taken, in their order.
record IsTaken (n : ℕ) (g : Frames) : Type 0 where
  ok : IsConsistent g
  pointer : g.frame_bitmap ≢ null
  total : g.total_pages ≡ 16384
  bits : (i : ℕ) → i < 16384 → is_used g i ≡ (ltb i (nth_frame n) || (leb 256 i && ltb i 3073))

-- Room for a frame, below which all are used.
nth_frame-free :
    (n i : ℕ)
    → n < free_frames
    → (nth_frame n < 16384)
      × ((ltb (nth_frame n) (nth_frame n) || (leb 256 (nth_frame n) && ltb (nth_frame n) 3073))
          ≡ false)
      × ((ltb i (nth_frame (n + 1)) || (leb 256 i && ltb i 3073))
          ≡ (if nth_frame n == i then true else (ltb i (nth_frame n) || (leb 256 i && ltb i 3073))))
nth_frame-free n i lt = (ground (arith, lt), ground (arith, lt), ground (arith, lt))

IsTaken-next :
    {g : Frames} (t : Console) (n : ℕ)
    → n < free_frames
    → IsTaken n g
    → AllocatedAt (nth_frame n) g t
IsTaken-next {g} t n lt is =
    let free = nth_frame-free n 0 lt in
    alloc_frame-at t (nth_frame n) is.ok is.pointer (omega (arith, is.total, free.0))
      (λ j below. is.bits j (omega (arith, below, free.0)) ∙ ground (arith, below))
      (is.bits (nth_frame n) free.0 ∙ free.1)

IsTaken-suc :
    {g : Frames} (t : Console) (n : ℕ)
    → n < free_frames
    → IsTaken n g
    → IsTaken (n + 1) (alloc_frame g t).1
IsTaken-suc {g} t n lt is =
    let a = IsTaken-next t n lt is in
    record {
      ok = alloc_frame-IsConsistent t is.ok;
      pointer = λ z. is.pointer (omega (arith, z, a.result.same_pointer));
      total = omega (arith, a.result.same_total, is.total);
      bits = λ i below.
          a.result.marked i
          ∙ ground (arith, a.frame, is.bits i below)
          ∙ sym (nth_frame-free n i lt).2;
    }

module _ (a l : ℕ) (f : Frames) (t u : Console) (fits : AreBytes f.bitmap)
    (cold : f.used_pages ≡ 0) where
  abbrev ready : Frames
  ready = (memory_init a l f t).0

  ready-IsTaken : IsTaken 0 ready
  ready-IsTaken =
      let (ok, at, total, used, bits) = memory_init-IsConsistent a l f t fits cold in
      record {
        ok = ok;
        pointer = omega (arith, at);
        total = total;
        bits = λ i lt. bits i lt ∙ ground arith;
      }

  alloc_frames-IsTaken : (n : ℕ) → n ≤ free_frames → IsTaken n (alloc_frames n ready u).0
  unfolding alloc_frames
  alloc_frames-IsTaken zero le = ready-IsTaken
  alloc_frames-IsTaken (suc n) le =
      subst (λ (k : ℕ). IsTaken k (alloc_frames (suc n) ready u).0) (omega arith)
        (IsTaken-suc (alloc_frames n ready u).1 n (omega (arith, le))
          (alloc_frames-IsTaken n (omega (arith, le))))

  -- From a bitmap of bytes and no page counted: the frames taken after memory_init are, in this
  -- order, frames 0 to 255 and 3073 to 16383, and the allocation behind these returns NULL, says
  -- so, and changes nothing.
  pub alloc_frames-nth_frame :
      (n : ℕ)
      → n ≤ free_frames
      → let (g, v) = alloc_frames n (memory_init a l f t).0 u in
        ((n < free_frames) × ((alloc_frame g v).0 ≡ nth_frame n * 4096))
        ⊎ ((n ≡ free_frames) × Exhausted g v (alloc_frame g v))
  alloc_frames-nth_frame n le =
      let (g, v) = alloc_frames n ready u in
      let is = alloc_frames-IsTaken n le in
      elim (dec_lt n free_frames) [
        | yes lt ↦ inl (lt, (IsTaken-next v n lt is).address)
        | no ge ↦ elim (alloc_frame_lem v is.ok is.pointer) [
          | inr e ↦ inr (omega (arith, le, ge), e)
          | inl x ↦ absurd (
              ground (
                arith,
                x.lowest.clear,
                x.lowest.below,
                is.total,
                is.bits x.frame (omega (arith, x.lowest.below, is.total)),
                ge,
                le,
              ))
        ]
      ]
