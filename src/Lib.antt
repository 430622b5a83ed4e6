-- ===== src/Lib.antt =====
-- Parthenope (ub2lb): the second level boot loader that U-Boot starts on PowerPC machines. It finds a
-- disc or a CD, reads a menu file from it, lets the user choose an entry, loads the kernel and its
-- modules, and starts them.
--
-- The parts, their files here, and the sources, by paths from the root of the repository:
--   Support and below: src/support.c. Strings are lists of bytes without the NUL; Support.Memory has
--     objects with their NUL, and `none` for a write past the end of an object.
--   Menu.Entry, Menu.Line: `menu_t` of src/menu.h; `getline`, `eatcomments`, `kick_eatcomments`,
--     `getnextword` and `strtrim` of src/menu.c.
--   Menu.Parser and below: the state machines `fsm` (Lst) and `kick_fsm` (Kick) of src/menu.c. One case
--     of their `switch (status)` is one function `step_...`; the cases that both have are shared. Lst.RoundTrip has the files that
--     `fsm` reads back.
--   Menu.Loading: `dev_load`, `magic_load` and `menu_load`, over any `boot_dev_t` of src/device.h.
--     Menu.Loading.Volumes says which partitions have which menu files.
--   Menu.Free: `menu_free`, on a memory of objects.
--   Menu.Display: `display`, `menu_display` and `menu_display_serial`, without what they draw. The static
--     variables of `display` are a state that is passed on.
--   Support.Lists: the linked lists of src/support.h, on a memory of pointers.
--   Boot: src/parthenope.c. Boot.Trace has the events that leave the program and the ways to end; Boot.Image,
--     Boot.Aros and Boot.Aos have `testboot_linux` and `testboot_standalone`, `testboot_aros` and
--     `testboot_aos`; Boot.Start has `bootstrap`, Boot.Cache `flush_cache`.
--   Cdrom: src/cdrom.c: `cdrom_read` with its cached sector; Cdrom.Susp, `iterate_entries` and `get_entry`;
--     Cdrom.Find, `fs_cdrom_find_file` and `fs_cdrom_load_file`; Cdrom.Create, `cdrom_create`. The last three take
--     any reader for `cdrom_read`, and Cdrom.Susp.Served says what is expected of one.
--   Context: `get_scan_list` of src/context.c, and both `get_dev`, of src/cdrom.c and src/rdb.c, over the scan of
--     U-Boot; the other definitions take what `get_dev` finds.
--   Rdb: src/rdb.c, the partition table of an Amiga disc. Install: the checksum that
--     tools/parthenope-install.c writes, which `Rdb` reads, and its search for free blocks; Install.Slb:
--     the boot loader that it erases and writes, as a chain of boot blocks; Install.Main: its `main`.
--   Ext2: `load_file` and `ext2_create` of src/ext2.c over U-Boot's driver, and src/tftp.c.
--   Sfs: src/sfs.c, on blocks as functions from offsets to bytes: the tree of extents, directories, files,
--     and `sfs_create`.
--   Elf: src/elf.c, the placement of sections (Elf, Elf.Hunk, Elf.Place, Elf.Sections) and `relocate`
--     (Elf.Relocate and below), what is registered for debugging (Elf.Register), and `load_elf_file` as a whole, on a
--     memory that holds the file (Elf.File). The loading loop reads the file as it was in front of the loop, which
--     is right where the file and the sections that are loaded lie apart.
--   Prelude has the shared types, tests and lemmas; Examples runs the model at small inputs.
--
-- The partition table gives `magic_load` its partitions; a file system makes each a `boot_dev_t`, from
-- which `dev_load` has a buffer for `fsm` or `kick_fsm`; `menu_display` then returns one of the entries,
-- whose kernel `bootstrap` loads from its device and starts.
--
-- Integers are natural numbers with the wrap-around of 32 bits written out (`word`); an `int` that may
-- be negative is `Int.ℤ`. Loops that follow data of a disc or a file are on fuel, and their results have
-- a case of their own for when it runs out: the machines have eight rounds for each byte of the buffer,
-- the searches in a chain of blocks as many rounds as the caller says, and the theorems say how many are
-- enough.
--
-- Not modelled: U-Boot's functions (`block_read`, `loadsector`, `tstc`, `getc`, `malloc` and its drivers), which
-- are parameters, or the data that they deliver; the functions of src/context.c that call these; what `bootstrap` draws on the
-- screen; assembler. `bootstrap` takes the drivers of the devices as parameters.
pub mod Support
pub mod Menu
pub mod Boot
pub mod Cdrom
pub mod Context
pub mod Rdb
pub mod Sfs
pub mod Install
pub mod Ext2
pub mod Elf
mod Prelude
mod Examples
