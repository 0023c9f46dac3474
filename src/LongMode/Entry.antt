-- ===== src/LongMode/Entry.antt =====
-- From `start` to kernel_main, or to the message that long mode is missing.
use mathlib.Core.Path.{subst}
use zer0s.Prelude.{
  ℕ, ◌+◌, ◌*◌, ◌/◌, ◌%◌, ◌^◌, ◌≤◌, ◌<◌, ◌≡◌, ◌⊎◌, inl, inr, refl, sym, ap, ◌∙◌, arith, none, some,
  length, get_or, bit, bit-bit_or, store,
}
use zer0s.Interrupts.Idt.{Handlers, IdtEntry, gate, wanted_gate}
use zer0s.Kernel.{Kernel, kernel_main}
use zer0s.Kernel.Boot.{IsCold, IsBooted, kernel_main-IsBooted}
use zer0s.LongMode.{
  Processor, Labels, Loader, mbd, check_long_mode, setup_long_mode, print_string, error_msg,
  gdt_words, Handover, stopped, called, long_mode_entry, start,
}
use zer0s.LongMode.Tables.{setup_long_mode-IsMapped, setup_long_mode-other}
use zer0s.LongMode.Paging.{translate, IsMapped-translate, IsMapped-fault}
use zer0s.LongMode.Start.{
  Supports, check_long_mode-Supports, print_string-other, print_string-get_or,
}

-- Present, a segment of code, and for 64-bit mode and not for 32-bit mode.
abbrev pub IsCode : ℕ → Type 0
IsCode d = (d / 2 ^ 47 % 2 ≡ 1) × (d / 2 ^ 43 % 4 ≡ 3) × (d / 2 ^ 53 % 2 ≡ 1) × (d / 2 ^ 54 % 2 ≡ 0)

-- Present, a segment of data, and writable.
abbrev pub IsData : ℕ → Type 0
IsData d = (d / 2 ^ 47 % 2 ≡ 1) × (d / 2 ^ 43 % 4 ≡ 2) × (d / 2 ^ 41 % 2 ≡ 1)

-- The machine in 64-bit mode over its page tables, with the kernel entered and booted.
pub record IsEntered (labels : Labels) (eax ebx : ℕ) (s : Loader) (hs : Handlers) (k : Kernel)
    (r : Handover) : Type 0 where
  pub state : Loader
  pub rdi : ℕ
  pub rsi : ℕ
  pub returned : r ≡ called state rdi rsi labels.stack_high_end
  pub first : rdi ≡ eax + 2 ^ 32 * ebx
  pub second : rsi ≡ ebx + 2 ^ 32 * s.dwords (mbd labels + 4)
  pub identity : (va : ℕ) → va < 0x4000000 → translate state.dwords state.cr3 va ≡ some va
  pub faults : (va : ℕ) → 0x4000000 ≤ va → va < 2 ^ 48 → translate state.dwords state.cr3 va ≡ none
  pub pae : bit state.cr4 5 ≡ 1
  pub lme : bit state.efer 8 ≡ 1
  pub pg : bit state.cr0 31 ≡ 1
  pub gdt : (state.gdt_base ≡ labels.gdt) × (state.gdt_limit ≡ 23)
  pub code_words : IsCode (get_or gdt_words (state.cs / 8) 0)
  pub data_words : IsData (get_or gdt_words (state.data_segments / 8) 0)
  pub selectors : (state.cs ≡ 8) × (state.data_segments ≡ 16)
  pub booted : IsBooted hs k (kernel_main hs rdi rsi k)
  pub gates : (v : ℕ) → v < 256 → (booted.after.idt.idt v).selector ≡ state.cs

abbrev saved : Labels → (eax ebx : ℕ) → Loader → Loader
saved labels eax ebx s = record s {
  dwords = store (store s.dwords labels.magic eax) (mbd labels) ebx;
}

-- The two words of `start` and the one behind them, once the tables stand.
saved-words :
    (labels : Labels) (eax ebx : ℕ) (s : Loader)
    → 0x4000 ≤ labels.magic
    → let m = (setup_long_mode labels (saved labels eax ebx s)).dwords in
      (m labels.magic ≡ eax)
      × (m (mbd labels) ≡ ebx)
      × (m (mbd labels + 4) ≡ s.dwords (mbd labels + 4))
saved-words labels eax ebx s high =
    let t = saved labels eax ebx s in
    (
      setup_long_mode-other labels t labels.magic (inr (omega (arith, high))) ∙ ground arith,
      setup_long_mode-other labels t (mbd labels) (inr (omega (arith, high))) ∙ ground arith,
      setup_long_mode-other labels t (mbd labels + 4) (inr (omega (arith, high))) ∙ ground arith,
    )

wanted_gate-selector : (hs : Handlers) (v : ℕ) → (wanted_gate hs v).selector ≡ 8
unfolding wanted_gate gate
wanted_gate-selector hs v = ground arith

start-called :
    (cpu : Processor) (labels : Labels) (eax ebx eflags : ℕ) (s : Loader)
    → check_long_mode cpu eflags ≡ 1
    → start cpu labels eax ebx eflags s
      ≡ long_mode_entry labels (setup_long_mode labels (saved labels eax ebx s))
unfolding start
start-called cpu labels eax ebx eflags s e = rw e refl

start-stopped :
    (cpu : Processor) (labels : Labels) (eax ebx eflags : ℕ) (s : Loader)
    → check_long_mode cpu eflags ≡ 0
    → start cpu labels eax ebx eflags s
      ≡ stopped (record (saved labels eax ebx s) { text = print_string error_msg 0xB8000 s.text })
unfolding start
start-stopped cpu labels eax ebx eflags s e = rw e refl

entered :
    (labels : Labels) (eax ebx : ℕ) (s : Loader) (hs : Handlers) (k : Kernel)
    → 0x4000 ≤ labels.magic
    → IsCold k
    → IsEntered labels eax ebx s hs k
        (long_mode_entry labels (setup_long_mode labels (saved labels eax ebx s)))
unfolding long_mode_entry setup_long_mode
entered labels eax ebx s hs k high cold =
    let t = saved labels eax ebx s in
    let words = saved-words labels eax ebx s high in
    let mapped = setup_long_mode-IsMapped labels t in
    let m = (setup_long_mode labels t).dwords in
    let boots =
      kernel_main-IsBooted hs (m labels.magic + 2 ^ 32 * m (mbd labels))
        (m (mbd labels) + 2 ^ 32 * m (mbd labels + 4)) k cold in
    record {
      state = record (setup_long_mode labels t) { data_segments = 0x10 };
      rdi = m labels.magic + 2 ^ 32 * m (mbd labels);
      rsi = m (mbd labels) + 2 ^ 32 * m (mbd labels + 4);
      returned = refl;
      first = omega (arith, words.0, words.1);
      second = omega (arith, words.1, words.2);
      identity = λ va lt. IsMapped-translate m va mapped lt;
      faults = λ va ge lt. IsMapped-fault m va mapped ge lt;
      pae = bit-bit_or s.cr4 5;
      lme = bit-bit_or s.efer 8;
      pg = bit-bit_or s.cr0 31;
      gdt = (refl, refl);
      code_words = (refl, refl, refl, refl);
      data_words = (refl, refl, refl);
      selectors = (refl, refl);
      booted = boots;
      gates =
          λ v lt. ap (λ (e : IdtEntry). e.selector) (boots.gates v lt) ∙ wanted_gate-selector hs v;
    }

-- On a processor that supports long mode, with the loader's words behind the page tables and the
-- kernel's statics at 0, the loader calls kernel_main in 64-bit mode, on the permanent stack.
-- Its tables map the first 64 MB to themselves, and every other address below 2 ^ 48 faults. The
-- selectors are those of a code and a data segment in a table of three entries. The first
-- argument is the multiboot magic with the multiboot address above its 32 bits, the second that
-- address with the word behind it. kernel_main boots whatever they are, and the gates that it
-- leaves at all vectors select the loader's code segment.
pub start-IsEntered :
    (cpu : Processor) (labels : Labels) (eax ebx eflags : ℕ) (s : Loader) (hs : Handlers)
    (k : Kernel)
    → Supports cpu eflags
    → 0x4000 ≤ labels.magic
    → IsCold k
    → IsEntered labels eax ebx s hs k (start cpu labels eax ebx eflags s)
start-IsEntered cpu labels eax ebx eflags s hs k able high cold =
    elim (check_long_mode-Supports cpu eflags) [
      | inl c ↦
          subst (IsEntered labels eax ebx s hs k)
            (sym (start-called cpu labels eax ebx eflags s c.1))
            (entered labels eax ebx s hs k high cold)
      | inr c ↦ absurd (c.0 able)
    ]

-- The processor stopped, with the message red on the screen; nothing else has changed but the two
-- words.
pub record IsRefused (labels : Labels) (eax ebx : ℕ) (s : Loader) (r : Handover) : Type 0 where
  pub shown : ℕ → ℕ
  pub returned :
      r
      ≡ stopped (record s {
        dwords = store (store s.dwords labels.magic eax) (mbd labels) ebx;
        text = shown;
      })
  pub message :
      (i : ℕ)
      → i < length error_msg
      → (shown (0xB8000 + 2 * i) ≡ get_or error_msg i 0) × (shown (0xB8000 + 2 * i + 1) ≡ 0x0C)
  pub rest : (q : ℕ) → (q < 0xB8000) ⊎ (0xB8000 + 2 * length error_msg ≤ q) → shown q ≡ s.text q

-- On a processor without long mode the loader stops with the message red at the start of the
-- screen, and changes nothing else but its two words.
pub start-IsRefused :
    (cpu : Processor) (labels : Labels) (eax ebx eflags : ℕ) (s : Loader)
    → ¬ Supports cpu eflags
    → IsRefused labels eax ebx s (start cpu labels eax ebx eflags s)
start-IsRefused cpu labels eax ebx eflags s unable = elim (check_long_mode-Supports cpu eflags) [
  | inl c ↦ absurd (unable c.0)
  | inr c ↦ record {
    shown = print_string error_msg 0xB8000 s.text;
    returned = start-stopped cpu labels eax ebx eflags s c.1;
    message = λ i lt. print_string-get_or error_msg 0xB8000 s.text i lt;
    rest = λ q out. print_string-other error_msg 0xB8000 s.text q out;
  }
]
