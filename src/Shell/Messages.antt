-- ===== src/Shell/Messages.antt =====
-- The fixed texts that the commands of kernel/arch/x86_64/shell.c print.
use zer0s.Prelude.{List, [], ◌∷◌, bytes}
use zer0s.Console.{Item, text}

unfoldable pub cmd_help : List Item
cmd_help =
    text (bytes "\nAvailable commands:\n")
    ∷ text (bytes "  help      - Show this help\n")
    ∷ text (bytes "  clear     - Clear screen\n")
    ∷ text (bytes "  procs     - List processes\n")
    ∷ text (bytes "  info      - Show system info\n")
    ∷ text (bytes "  echo      - Print text\n")
    ∷ text (bytes "  reboot    - Reboot system\n")
    ∷ text (bytes "  status    - Show system status\n")
    ∷ text (bytes "  hex       - Show number in hex\n")
    ∷ text (bytes "  about     - About Zer0S\n")
    ∷ text (bytes "  mem       - Show memory status\n")
    ∷ text (bytes "  heap      - Show heap status\n")
    ∷ text (bytes "  kmalloc   - Allocate memory\n")
    ∷ []

unfoldable pub cmd_info : List Item
cmd_info =
    text (bytes "\n=== Zer0S System Info ===\n")
    ∷ text (bytes "Version: 2.0 (64-bit)\n")
    ∷ text (bytes "Architecture: x86_64\n")
    ∷ text (bytes "Mode: Long Mode\n")
    ∷ text (bytes "Interrupts: Enabled\n")
    ∷ text (bytes "Keyboard: PS/2\n")
    ∷ text (bytes "Video: VGA Text 80x25\n")
    ∷ text (bytes "========================\n")
    ∷ []

unfoldable pub cmd_status : List Item
cmd_status =
    text (bytes "\n=== System Status ===\n")
    ∷ text (bytes "Status: RUNNING\n")
    ∷ text (bytes "Kernel: Stable\n")
    ∷ text (bytes "Interrupts: Active\n")
    ∷ text (bytes "===================\n")
    ∷ []

unfoldable pub cmd_about : List Item
cmd_about =
    text (bytes "\n=== Zer0S ===\n")
    ∷ text (bytes "A 64-bit hobby OS built from scratch\n")
    ∷ text (bytes "Created by Zer0G0ld\n")
    ∷ text (bytes "License: GPL-3.0\n")
    ∷ text (bytes "Features:\n")
    ∷ text (bytes "  - 64-bit Long Mode\n")
    ∷ text (bytes "  - IDT with interrupt handling\n")
    ∷ text (bytes "  - PS/2 Keyboard driver\n")
    ∷ text (bytes "  - VGA Text Mode\n")
    ∷ text (bytes "  - Interactive Shell\n")
    ∷ text (bytes "========================\n")
    ∷ []
