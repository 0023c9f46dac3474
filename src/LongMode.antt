-- ===== src/LongMode.antt =====
-- The loader of kernel/arch/x86_64/boot.asm, from GRUB's jump to `start` up to the call of
-- kernel_main. What it pushes to its two stacks lies apart from the words below.
pub mod Tables
pub mod Paging
pub mod Start
pub mod Entry
pub mod Memory
mod Tests
use Prim.Native.Nat.{bit_xor}
use zer0s.Prelude.{
  ℕ, zero, suc, ◌+◌, ◌-◌, ◌*◌, ◌/◌, ◌^◌, List, [], ◌∷◌, length, bit_and, bit_or, ltb, ◌==◌,
  if◌then◌else◌, store, for_rounds, u32, bytes,
}

-- What the loader reads of the processor: the flags behind a `popfd` of a value over others, and
-- `eax` and `edx` behind a `cpuid`.
pub record Processor : Type 0 where
  pub popfd : (eflags value : ℕ) → ℕ
  pub cpuid : (eax : ℕ) → ℕ × ℕ

-- The addresses of the labels that the code names.
pub record Labels : Type 0 where
  pub magic : ℕ
  pub gdt : ℕ
  pub stack_high_end : ℕ

-- `mbd` follows `magic`.
abbrev pub mbd : Labels → ℕ
mbd labels = labels.magic + 4

-- `dwords a` is the 32-bit word at an address; those that the code uses do not overlap. `text`
-- holds the bytes of the VGA text memory, and `data_segments` is the selector in ds, es, fs, gs and
-- ss.
pub record Loader : Type 0 where
  pub dwords : ℕ → ℕ
  pub text : ℕ → ℕ
  pub cr0 : ℕ
  pub cr3 : ℕ
  pub cr4 : ℕ
  pub efer : ℕ
  pub gdt_limit : ℕ
  pub gdt_base : ℕ
  pub cs : ℕ
  pub data_segments : ℕ

-- The result is in `eax`.
unfoldable pub check_long_mode : Processor → (eflags : ℕ) → ℕ
check_long_mode cpu eflags =
    if cpu.popfd eflags (bit_xor eflags (2 ^ 21)) == eflags
    then 0
    else if ltb (cpu.cpuid 0x80000000).0 0x80000001
    then 0
    else if bit_and (cpu.cpuid 0x80000001).1 (2 ^ 29) == 0
    then 0
    else 1

-- `rep stosd` of 0 over the three tables.
unfoldable pub clear_tables : (edi : ℕ) → (ℕ → ℕ) → (ℕ → ℕ)
clear_tables edi = for_rounds (λ i m. store m (edi + 4 * i) 0) (0x3000 / 4) 0

-- The loop `.setup_pd`, `ecx` rounds of it.
unfoldable pub setup_pd : (ecx edi ebx edx : ℕ) → (ℕ → ℕ) → (ℕ → ℕ)
setup_pd zero edi ebx edx m = m
setup_pd (suc ecx) edi ebx edx m =
    setup_pd ecx edi (u32 (ebx + 0x200000)) (u32 (edx + 1)) (store m (edi + edx * 8) ebx)

-- The null descriptor, the code segment and the data segment.
abbrev pub gdt_words : List ℕ
gdt_words = 0 ∷ 0x00209A0000000000 ∷ 0x0000920000000000 ∷ []

unfoldable pub setup_long_mode : Labels → Loader → Loader
unfolding clear_tables setup_pd
setup_long_mode labels s =
    let edi : ℕ = 0x1000 in
    let cleared = clear_tables edi s.dwords in
    let linked = store (store cleared edi 0x2003) (edi + 0x1000) 0x3003 in
    record s {
      cr3 = edi;
      dwords = setup_pd 32 (edi + 0x1000 + 0x1000) 0x83 0 linked;
      cr4 = bit_or s.cr4 (2 ^ 5);
      efer = bit_or s.efer (2 ^ 8);
      cr0 = bit_or s.cr0 (2 ^ 31);
      gdt_limit = 8 * length gdt_words - 1;
      gdt_base = labels.gdt;
      cs = 0x08;
    }

-- The loop of `print_string`, over a text up to its NUL.
unfoldable pub print_string : List ℕ → (edi : ℕ) → (ℕ → ℕ) → (ℕ → ℕ)
print_string [] edi text = text
print_string (al ∷ s) edi text =
    print_string s (edi + 1 + 1) (store (store text edi al) (edi + 1) 0x0C)

abbrev pub error_msg : List ℕ
error_msg = bytes "Error: Long mode not supported by this CPU"

-- The loader stops the processor, or calls kernel_main with these arguments, on the stack at `rsp`.
pub data Handover : Type 0 where
  stopped : Loader → Handover
  called : (state : Loader) (rdi rsi rsp : ℕ) → Handover

-- The 64-bit word at an address.
abbrev pub qword : (ℕ → ℕ) → ℕ → ℕ
qword m a = m a + 2 ^ 32 * m (a + 4)

unfoldable pub long_mode_entry : Labels → Loader → Handover
long_mode_entry labels s =
    called (record s { data_segments = 0x10 }) (qword s.dwords labels.magic)
      (qword s.dwords (mbd labels)) labels.stack_high_end

unfoldable pub start : Processor → Labels → (eax ebx eflags : ℕ) → Loader → Handover
unfolding check_long_mode setup_long_mode print_string long_mode_entry
start cpu labels eax ebx eflags s =
    let saved = record s { dwords = store (store s.dwords labels.magic eax) (mbd labels) ebx } in
    if check_long_mode cpu eflags == 0
    then stopped (record saved { text = print_string error_msg 0xB8000 s.text })
    else long_mode_entry labels (setup_long_mode labels saved)
