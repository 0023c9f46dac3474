-- ===== src/LongMode/Tables.antt =====
-- The page tables that `setup_long_mode` leaves.
use zer0s.Prelude.{
  ℕ, zero, suc, ◌+◌, ◌*◌, ◌^◌, ◌≤◌, ◌<◌, ◌≡◌, ◌≢◌, ◌⊎◌, inl, inr, refl, ap, ◌∙◌, arith, store,
  for_rounds_inv, u32,
}
use zer0s.LongMode.{Labels, Loader, clear_tables, setup_pd, setup_long_mode, qword}

clear_tables-zero : (edi : ℕ) (m : ℕ → ℕ) (j : ℕ) → j < 0xC00 → clear_tables edi m (edi + 4 * j) ≡ 0
unfolding clear_tables
clear_tables-zero edi m j lt =
    for_rounds_inv (λ i m. store m (edi + 4 * i) 0) (λ k (s : ℕ → ℕ). j < k → s (edi + 4 * j) ≡ 0)
      (λ k s h below. ground (arith, h)) 0xC00 0 0xC00 (omega arith) m
      (λ below. absurd (omega arith)) lt

setup_pd-other :
    (ecx edi ebx edx : ℕ) (m : ℕ → ℕ) (q : ℕ)
    → edx + ecx ≤ 512
    → ((k : ℕ) → k < ecx → edi + 8 * (edx + k) ≢ q)
    → setup_pd ecx edi ebx edx m q ≡ m q
unfolding setup_pd
setup_pd-other zero edi ebx edx m q le out = refl
setup_pd-other (suc ecx) edi ebx edx m q le out =
    let next : u32 (edx + 1) ≡ edx + 1 = omega (arith, le) in
    let here : edi + edx * 8 ≢ q = λ e. out 0 (omega arith) (omega (arith, e)) in
    rw next (
      setup_pd-other ecx edi (u32 (ebx + 0x200000)) (edx + 1) (store m (edi + edx * 8) ebx) q
        (omega (arith, le)) (λ k lt e. out (k + 1) (omega (arith, lt)) (omega (arith, e)))
      ∙ ground (arith, here))

setup_pd-entry :
    (ecx edi ebx edx : ℕ) (m : ℕ → ℕ) (k : ℕ)
    → edx + ecx ≤ 512
    → ebx + ecx * 0x200000 < 2 ^ 32
    → k < ecx
    → setup_pd ecx edi ebx edx m (edi + 8 * (edx + k)) ≡ ebx + k * 0x200000
unfolding setup_pd
setup_pd-entry zero edi ebx edx m k le room lt = absurd (omega arith)
setup_pd-entry (suc ecx) edi ebx edx m zero le room lt =
    let next : u32 (edx + 1) ≡ edx + 1 = omega (arith, le) in
    rw next (
      setup_pd-other ecx edi (u32 (ebx + 0x200000)) (edx + 1) (store m (edi + edx * 8) ebx)
        (edi + 8 * (edx + 0)) (omega (arith, le)) (λ k lt e. omega (arith, e))
      ∙ ground arith)
setup_pd-entry (suc ecx) edi ebx edx m (suc k) le room lt =
    let next : u32 (edx + 1) ≡ edx + 1 = omega (arith, le) in
    let base : u32 (ebx + 0x200000) ≡ ebx + 0x200000 = omega (arith, room) in
    let at : edi + 8 * (edx + suc k) ≡ edi + 8 * (edx + 1 + k) = omega arith in
    rw (next, base, at)
      (setup_pd-entry ecx edi (ebx + 0x200000) (edx + 1) (store m (edi + edx * 8) ebx) k
          (omega (arith, le)) (omega (arith, room)) (omega (arith, lt))
        ∙ omega arith)

-- What the tables say: the first entry of each level leads on, those of the directory map 2 MB
-- each, 32 of them, and all others are 0.
pub record IsMapped (m : ℕ → ℕ) : Type 0 where
  pub top : qword m 0x1000 ≡ 0x2003
  pub top_rest : (i : ℕ) → 0 < i → i < 512 → qword m (0x1000 + 8 * i) ≡ 0
  pub middle : qword m 0x2000 ≡ 0x3003
  pub middle_rest : (i : ℕ) → 0 < i → i < 512 → qword m (0x2000 + 8 * i) ≡ 0
  pub pages : (i : ℕ) → i < 32 → qword m (0x3000 + 8 * i) ≡ 0x83 + i * 0x200000
  pub pages_rest : (i : ℕ) → 32 ≤ i → i < 512 → qword m (0x3000 + 8 * i) ≡ 0

linked : (ℕ → ℕ) → (ℕ → ℕ)
linked m = store (store (clear_tables 0x1000 m) 0x1000 0x2003) 0x2000 0x3003

final : (ℕ → ℕ) → (ℕ → ℕ)
final m = setup_pd 32 0x3000 0x83 0 (linked m)

-- A word of the three tables but for the entries that are written.
final-zero :
    (m : ℕ → ℕ) (j : ℕ)
    → j < 0xC00
    → j ≢ 0
    → j ≢ 0x400
    → ((k : ℕ) → k < 32 → 0x800 + 2 * k ≢ j)
    → final m (0x1000 + 4 * j) ≡ 0
unfolding final linked
final-zero m j lt n0 n1 n2 =
    setup_pd-other 32 0x3000 0x83 0 _ (0x1000 + 4 * j) (omega arith)
      (λ k lt e. n2 k lt (omega (arith, e)))
    ∙ ground (arith, n0, n1, clear_tables-zero 0x1000 m j lt)

final-zero_at :
    (m : ℕ → ℕ) (q j : ℕ)
    → q ≡ 0x1000 + 4 * j
    → j < 0xC00
    → j ≢ 0
    → j ≢ 0x400
    → ((k : ℕ) → k < 32 → 0x800 + 2 * k ≢ j)
    → final m q ≡ 0
final-zero_at m q j e lt n0 n1 n2 = ap (final m) e ∙ final-zero m j lt n0 n1 n2

-- An entry of the three tables, counted from the first one's start, that is not written.
entry-zero :
    (m : ℕ → ℕ) (p i : ℕ)
    → p ≡ 0x1000 + 8 * i
    → i < 0x600
    → i ≢ 0
    → i ≢ 0x200
    → (i < 0x400) ⊎ (0x420 ≤ i)
    → qword (final m) p ≡ 0
entry-zero m p i e lt n0 n1 out = omega (
  arith,
  final-zero_at m p (2 * i) (omega (arith, e)) (omega (arith, lt)) (λ z. n0 (omega (arith, z)))
      (λ z. n1 (omega (arith, z))) (λ k below z. omega (arith, z, below, out)),
  final-zero_at m (p + 4) (2 * i + 1) (omega (arith, e)) (omega (arith, lt)) (λ z. omega (arith, z))
      (λ z. omega (arith, z)) (λ k below z. omega (arith, z)),
)

final-low : (m : ℕ → ℕ) (q : ℕ) → q < 0x3000 → final m q ≡ linked m q
unfolding final
final-low m q lt =
    setup_pd-other 32 0x3000 0x83 0 (linked m) q (omega arith) (λ k below same. omega (arith, same))

linked-entries : (m : ℕ → ℕ) → (linked m 0x1000 ≡ 0x2003) × (linked m 0x2000 ≡ 0x3003)
unfolding linked
linked-entries m = (refl, refl)

-- The upper half of an entry.
upper-zero : (m : ℕ → ℕ) (p i : ℕ) → p ≡ 0x1000 + 8 * i → i < 0x600 → final m (p + 4) ≡ 0
upper-zero m p i e lt =
    final-zero_at m (p + 4) (2 * i + 1) (omega (arith, e)) (omega (arith, lt))
      (λ z. omega (arith, z)) (λ z. omega (arith, z)) (λ k below z. omega (arith, z))

final-pages : (m : ℕ → ℕ) (i : ℕ) → i < 32 → final m (0x3000 + 8 * i) ≡ 0x83 + i * 0x200000
unfolding final
final-pages m i lt =
    let e : 0x3000 + 8 * i ≡ 0x3000 + 8 * (0 + i) = omega arith in
    ap (setup_pd 32 0x3000 0x83 0 (linked m)) e
    ∙ setup_pd-entry 32 0x3000 0x83 0 (linked m) i (omega arith) (omega arith) lt

final-IsMapped : (m : ℕ → ℕ) → IsMapped (final m)
final-IsMapped m = record {
  top = omega (arith, final-low m 0x1000, (linked-entries m).0, upper-zero m 0x1000 0);
  top_rest = λ i pos lt.
      entry-zero m (0x1000 + 8 * i) i refl (omega (arith, lt)) (λ z. omega (arith, z, pos))
        (λ z. omega (arith, z, lt)) (inl (omega (arith, lt)));
  middle = omega (arith, final-low m 0x2000, (linked-entries m).1, upper-zero m 0x2000 0x200);
  middle_rest = λ i pos lt.
      entry-zero m (0x2000 + 8 * i) (0x200 + i) (omega arith) (omega (arith, lt))
        (λ z. omega (arith, z, pos)) (λ z. omega (arith, z, pos)) (inl (omega (arith, lt)));
  pages = λ i lt. omega (arith, final-pages m i lt, upper-zero m (0x3000 + 8 * i) (0x400 + i));
  pages_rest = λ i ge lt.
      entry-zero m (0x3000 + 8 * i) (0x400 + i) (omega arith) (omega (arith, lt))
        (λ z. omega (arith, z)) (λ z. omega (arith, z)) (inr (omega (arith, ge)));
}

pub setup_long_mode-IsMapped :
    (labels : Labels) (s : Loader) → IsMapped (setup_long_mode labels s).dwords
unfolding setup_long_mode final linked
setup_long_mode-IsMapped labels s = final-IsMapped s.dwords

clear_tables-other :
    (m : ℕ → ℕ) (q : ℕ) → (q < 0x1000) ⊎ (0x4000 ≤ q) → clear_tables 0x1000 m q ≡ m q
unfolding clear_tables
clear_tables-other m q out =
    for_rounds_inv (λ i m. store m (0x1000 + 4 * i) 0) (λ k (s : ℕ → ℕ). k ≤ 0xC00 → s q ≡ m q)
      (λ k s h le. ground (arith, h (omega (arith, le)), le, out)) 0xC00 0 0xC00 (omega arith) m
      (λ le. refl) (omega arith)

pub setup_long_mode-other :
    (labels : Labels) (s : Loader) (q : ℕ)
    → (q < 0x1000) ⊎ (0x4000 ≤ q)
    → (setup_long_mode labels s).dwords q ≡ s.dwords q
unfolding setup_long_mode linked
setup_long_mode-other labels s q out =
    setup_pd-other 32 0x3000 0x83 0 (linked s.dwords) q (omega arith)
      (λ k lt e. omega (arith, e, out))
    ∙ ground (arith, out, clear_tables-other s.dwords q out)
