-- ===== src/Asm/Switch.antt =====
-- The context switch of kernel/arch/x86_64/switch.asm, on the `proc_context_t` of
-- kernel/core/process.h.
use zer0s.Prelude.{List, [], ◌∷◌, ◌++◌}
use zer0s.Asm.{
  Instr, push, push_word, push_at, mov, load, save, iretq, cli, pushfq, rax, rbx, rcx, rdx, rsi,
  rdi, rbp, rsp, r8, r9, r10, r11, r12, r13, r14, r15,
}

-- `switch_context` up to the comment "Load new context".
unfoldable pub save_context : List Instr
save_context =
    save rdi 0x00 rax
    ∷ save rdi 0x08 rbx
    ∷ save rdi 0x10 rcx
    ∷ save rdi 0x18 rdx
    ∷ save rdi 0x20 rsi
    ∷ save rdi 0x28 rdi
    ∷ save rdi 0x30 rbp
    ∷ save rdi 0x38 rsp
    ∷ save rdi 0x40 r8
    ∷ save rdi 0x48 r9
    ∷ save rdi 0x50 r10
    ∷ save rdi 0x58 r11
    ∷ save rdi 0x60 r12
    ∷ save rdi 0x68 r13
    ∷ save rdi 0x70 r14
    ∷ save rdi 0x78 r15
    ∷ load rax rsp 0
    ∷ save rdi 0x80 rax
    ∷ load rax rsp 8
    ∷ save rdi 0x88 rax
    ∷ []

-- The rest of it, up to its `iretq`.
unfoldable pub load_context : List Instr
load_context =
    load rax rsi 0x00
    ∷ load rbx rsi 0x08
    ∷ load rcx rsi 0x10
    ∷ load rdx rsi 0x18
    ∷ load rbp rsi 0x30
    ∷ load r8 rsi 0x40
    ∷ load r9 rsi 0x48
    ∷ load r10 rsi 0x50
    ∷ load r11 rsi 0x58
    ∷ load r12 rsi 0x60
    ∷ load r13 rsi 0x68
    ∷ load r14 rsi 0x70
    ∷ load r15 rsi 0x78
    ∷ load rsp rsi 0x38
    ∷ push_at rsi 0x88
    ∷ push_at rsi 0x80
    ∷ load rsi rsi 0x20
    ∷ load rdi rsi 0x28
    ∷ []

unfoldable pub switch_context : List Instr
unfolding save_context load_context
switch_context = (save_context ++ load_context) ++ (iretq ∷ [])

-- `switch_to_user` up to its `iretq`.
unfoldable pub enter_user : List Instr
enter_user = cli ∷ mov rsp rsi ∷ push_word 0x23 ∷ push rsi ∷ pushfq ∷ push_word 0x1B ∷ push rdi ∷ []

unfoldable pub switch_to_user : List Instr
unfolding enter_user
switch_to_user = enter_user ++ (iretq ∷ [])
