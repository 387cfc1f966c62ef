-- ===== src/Lib.antt =====
-- A verification library for dan64, an 8-bit home computer on an AVR microcontroller: a virtual
-- machine that runs 6502 code, an assembler and disassembler, an audio storage, a memory in two
-- parts, the buffers between interrupt routines and the program, a console with a line editor, the
-- video signal, and the system calls of the programs.
--
-- How the parts interact. The main program (init/main.c) calls vm_exec of vm/vm.c instruction by
-- instruction. vm/vm.c reaches the memory only through vm_ram_read and vm_ram_write, which
-- init/syscall.c defines over 512 local bytes and a serial RAM that memory/mem.c drives, and
-- vm/test/test.c over one array. dasm/dasm.c writes and prints the code that vm/vm.c runs.
-- storage/storage.c turns bytes into half pulses of audio and back; its interrupt routine leaves
-- bytes in a buffer, from which `load` of init/main.c takes them and passes them to `decode`; `save`
-- passes the bytes of the serial RAM to the encoder. A program that vm/vm.c runs calls vm_syscall of
-- init/syscall.c, which reaches `load`, `save`, the console, the line editor and the keyboard. The
-- console draws into the video memory in the serial RAM, from which the interrupt routine of
-- video/video.c reads the picture line by line.
--
-- The files and the code they model.
--   Prelude, Prelude/*   the names of the libraries, tests on numbers, list lemmas, words of 8 and
--                        16 bits, and integers.
--   Bits, Bits/*         laws of the bitwise operations.
--   Vm/State, Flags      include/vm.h and the registers of vm/vm.c: r_a, r_x, r_y, r_sp, r_s, r_pc are
--                        the fields of Vm, beside the state of the memory; the macros of the flags.
--   Vm/Bus               the interface of vm_ram_read and vm_ram_write: a view of the memory byte by
--                        byte, and the laws that the stack theorems use.
--   Vm/Decode            the labels of the switch of vm_exec: for each opcode the group of cases that
--                        shares code, and the addressing. Opcodes without a case have none.
--   Vm/Operand           the addresses and operands of the cases, and the program counter.
--   Vm/Alu, Vm/Alu/*     the arithmetic behind the shared labels (adc_im, sbc_im_d, rol_a and so on).
--   Vm/Ops/*             one function for each instruction.
--   Vm/Exec              vm_exec: fetch of three bytes, the switch, and the program counter.
--   Vm/FlatRam           the memory of vm/test/test.c as an implementation of Vm/Bus.
--   Dasm/Table, Find     the table vm_op_tbl of dasm/dasm.c, find_mne and the search for an opcode.
--   Dasm/Text            ctype, sprintf and sscanf as far as dasm/dasm.c uses them.
--   Dasm/As, Das         dasm_as and dasm_das.
--   Dasm/Hex             numbers in hexadecimal digits, printed and read back.
--   Dasm/Parse, Words, Roundtrip
--                        the operands and the mnemonics that dasm_das prints, read by dasm_as.
--   Dasm/Printed         the characters of a line that dasm_das prints.
--   Dasm/Tool            the loops of dasm/tools/dasm.c; Tool/Again is about a file that is disassembled
--                        and assembled again.
--   Dasm/Agree, Branch, Dot
--                        the table and the branches against the machine; the end of the loops of dasm_as.
--   Memory/Chip          the interface of the serial RAM: what a transfer of one byte does in each
--                        state of an instruction.
--   Memory/Sram          memory/mem.c: sram_write, sram_set, sram_read.
--   Memory/Paged         vm_ram_read and vm_ram_write of init/syscall.c, as an implementation of
--                        Vm/Bus over any other one.
--   Storage/Decoder      init_decoder and decode of storage/storage.c and the receiving loop of `load`
--                        in init/main.c.
--   Storage/Encoder      half_pulse, encode_byte, encode_header and encode_end of storage/storage.c, and the
--                        order in which storage/tools/encode.c calls them.
--   Storage/Listener     the interrupt routine PCINT1_vect of storage/storage.c; Storage/Listener/Wire
--                        leads the samples of the encoder to it, Storage/Listener/Frames whole frames,
--                        and Storage/Listener/Sync is about the changes that come before the first byte.
--   Storage/Output       aout_on, ain_put and the interrupt routine TIMER2_OVF_vect of storage/storage.c.
--                        Who runs next, the program or the interrupt routine, is a list of turns:
--                        Output/Order is about the samples under every such list, Output/Dry about
--                        a buffer that runs dry.
--   Console              put_char and the loop of put_string of init/main.c; Console/Outside is about
--                        the memory outside the screen.
--   Console/Screen       video_put_char and video_put_tile of video/video.c and scroll_up of
--                        init/main.c on the video memory; Screen/Cursor is video_cursor and
--                        Screen/Clear video_cls.
--   Editor               buffered_input of init/main.c: `pos`, `end` and `cnt` are fields of Editor, one
--                        function for each case of its switch.
--   Editor/Line          a line of text and what each key does to it, which the buffer implements
--                        (Editor/Cells, Refine, Input); Editor/Bounds is about the memory behind it.
--   Video, Video/Lines   vsync, scanline and the addresses of TIMER1_OVF_vect of video/video.c.
--   System               the global variables of init/main.c and init/syscall.c that commands and
--                        system calls share, over the serial RAM: the type Machine.
--   System/Storage       `load` and `save` of init/main.c.
--   System/Syscall       vm_syscall of init/syscall.c: one function for each case that does more than
--                        set a register.
--   System/Commands      get_param and the commands save, load, cls, peek, poke and help of init/main.c,
--                        Commands/Code list and as; the address that a command keeps is an argument
--                        and a result. Commands/Typed and Again are about lines that are typed.
--   System/Run           cmd_run of init/main.c: vm_exec over the memory and the system calls of
--                        init/syscall.c; Run/Exit is about a program that ends itself.
--   System/Main          the table of the commands and the loop of `main` of init/main.c; Main/Names is
--                        about the names, Main/Prompt about a line that is typed.
--   Ring                 the buffer operations of storage/storage.c and input/keyboard.c.
--   Keyboard             input/keyboard.c over Ring; Keyboard/Map is the table of include/keyb_map.h.
--   Keyboard/Keys        the characters that a list of scan codes gives.
--   */Examples           runs on concrete inputs.
--
-- Numbers are natural numbers, and each conversion to uint8_t or uint16_t is written as a
-- remainder; differences add the modulus first, as u16 does. `int` has sixteen bits. Signed values
-- that can be negative are integers (the level of a pulse, the control of a decoder).
--
-- Loops are structural recursion on the bytes that they treat. Some loops have a bound on their
-- rounds. That over the items of the `.` command of dasm_as takes the length of the line and one,
-- which is enough on lines of fewer than 256 characters, since every round takes a character. On
-- longer ones a uint8_t counter wraps in dasm_as or get_value, and where the code then loops for
-- ever the model has the result `stuck`. get_param reads a part of a buffer of 128 bytes, in which
-- its uint8_t does not wrap. That of keyboard_asc takes more rounds than codes wait, which is
-- enough since every round takes one and the USART receives none meanwhile. The loop of system call
-- 0x11 over a zstring takes a number of rounds, of which one more than the string has bytes is
-- enough, and that of 0x14 takes as many as there are bytes to write, which is enough since every
-- round writes one at least. The loop of cmd_run takes a number of rounds: where they are too few
-- it has no result. A system call that does not return raises `stalled`, and the run has no result.
-- The loops of the command line tool take a number of rounds too: as many as the file has bytes for
-- the disassembler, and one more for the assembler, are enough where the disassembled file is
-- assembled again. The receiving loop takes the list of the bytes that arrive before the timeout.
-- The loops that wait for a key take the list of what keyboard_asc returns call by call, and have
-- no result where the list ends first. What aout_err returns is a list too; an error stays in it
-- until the next aout_on, and `save` there takes ain_put to return; `sent` are the samples that
-- `save` has put into the buffer, whether they are played or not. The wire takes a sample above
-- zero for a high pin, and counts time in samples, of which the AVR plays one at every fifth
-- overflow of TIMER2; noise and jitter are left out, though every length that is on the same side
-- of SHORT_TIME is heard the same. The time that busy waiting takes is not modelled.
--
-- Parameters. The memory of the machine and vm_syscall are externally defined for vm/vm.c; the
-- serial RAM is hardware; the bytes behind the table of dasm/dasm.c, which its searches read, are up
-- to the linker; the callbacks of the decoder and the encoder are the caller's; rand and srand are
-- the C library's; and the font is data.
--
-- Not modelled: what the items of a refused `.` line leave in the buffer of cmd_as, the pulses of
-- the video signal, the set-up of timers, pins and interrupts, the options and files of the
-- command line tools, and the programs under cc65.
pub mod Prelude
pub mod Bits
pub mod Vm
pub mod Dasm
pub mod Memory
pub mod Ring
pub mod Keyboard
pub mod Console
pub mod Video
pub mod Editor
pub mod Storage
pub mod System
