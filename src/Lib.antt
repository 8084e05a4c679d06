-- ===== src/Lib.antt =====
-- A verification library for the file system simulator of caozuokeshe.
--
-- The program, under Course_Design/Project_C_FileSystem, keeps a disk in a file of the host, a
-- Unix-like file system on that disk (superblock, two bitmaps, inode table, one directory), operations
-- on open files, and a table of users with permission checks. The layers call downwards: file_ops.c and
-- the upper half of fs_ops.c use the inode table and the bitmaps, these use the blocks of
-- disk_simulator.c, and both ask user_manager.c for the current user and its permissions.
--
-- Where the code is modelled:
--   Errors       fs.h: fs_error_t; a function that returns a code and a value returns a Result.
--   Codec        the byte layout of packed structs: little-endian fields without gaps.
--   Layout       fs.h: fs_superblock_t, fs_inode_t, fs_dir_entry_t; fs_ops.c: fs_ops_calculate_checksum.
--                Layout/RoundTrip: reading back what was written.
--   Bitmap       fs.h: fs_bitmap_t; fs_ops.c: fs_ops_init_bitmap, set_bitmap_bit, alloc_bitmap_bit,
--                free_bitmap_bit. Bitmap/Invariant, Bitmap/Alloc, Bitmap/Single:
--                the invariant and the laws.
--   Disk/Host    the host's calls (open, lseek, read, write, fsync, time, calloc), a parameter.
--   Disk/Block   disk_simulator.c: disk_write_block, disk_read_block, and the functions over several
--                blocks. Disk/Block/Laws, Disk/Block/Runs: the disk as an array of blocks.
--   Disk/Session disk_simulator.c: the header, disk_init, disk_close, disk_sync, disk_format and the
--                getters. Disk/Session/Laws, Disk/Session/Reopen: opening, closing, formatting.
--   Fs/State     fs.h: fs_state_t, with the disk beside it, and the shape of stateful functions.
--   Fs/Super, Fs/BitmapIo, Fs/Inodes, Fs/Directory, Fs/Format, Fs/Files
--                fs_ops.c: the superblock, the bitmaps on the disk, fs_ops_read_inode and
--                fs_ops_write_inode, find_file_in_directory and add_file_to_directory,
--                fs_ops_create_root_directory and format_disk, fs_create, fs_open and fs_close.
--                Fs/Super/Laws: the superblock through the disk. Fs/Directory/Entries,
--                Fs/Directory/Found: the entries of a directory block; Fs/Directory/Stored,
--                Fs/Directory/Listed: a directory on the disk.
--   Users        user_manager.c: Users/Password the hash, Users/Permission the checks (and the one that
--                fs.h has inline), Users/Accounts the table and the login, Users/Owner chown and chmod.
--   FileOps      file_ops.c: FileOps/Blocks the helpers, FileOps/ReadWrite fs_write and fs_read,
--                FileOps/Position fs_seek, fs_tell and fs_size; FileOps/Blocks/Handles what
--                fs_close leaves. FileOps/Content: the bytes of a file and the loops of fs_write and
--                fs_read over them. FileOps/Session: a descriptor that is open on a file in the table,
--                with fs_write, fs_tell, fs_seek and fs_read on it.
--   System       the program as a whole: System/Steps the functions that change the state as a step relation,
--                System/Keeps, System/Storage, System/Files, System/Ops and System/Format what each
--                of them keeps, System/Invariant and System/Reachable the states that runs reach.
--                System/Privilege: who may be root.
--   Shell        main.c: Shell/Text the C library's functions on text and parse_command, Shell/Lines what
--                is printed, Shell/State the shell's state, Shell/Reports the tables that it prints,
--                Shell/Control, Shell/UserCommands and Shell/FileCommands the handlers, Shell/Session
--                the command table, execute_command and main. Shell/Words, Shell/Words/Joined and
--                Shell/Words/Fits: the words of a line. Shell/Advance: what commands and rounds may do,
--                Shell/Ending: how main ends. Shell/Guards, Shell/Outcomes, Shell/Echo: what single
--                commands do.
--   Base         lists, strings, splices and bits that the parts share.
--   Tests        each theorem at a concrete input.
--
-- How the state and its operations correspond to the code:
--   - The globals g_disk_state and g_fs_state are the records Disk and FsState; a function of the code
--     is a function from the state to a result and a state. What the layers below the shell print is
--     left out, and so are the two floating-point averages of elapsed time in the disk's statistics.
--   - The shell's state has the globals of main.c, the input that is still to be read and the messages
--     that have been printed. atoi and strtol are modelled as in a C library with 64-bit longs that cuts
--     what is out of range to the nearest long.
--   - A Host says how the n-th call of the host turns out; the disk counts the calls. Theorems that need
--     the calls to succeed take IsReliable as a hypothesis, and the others hold on every host. The
--     simulator reads and writes the host's file in chunks at fixed offsets, the header and the blocks,
--     so a file is a size and a chunk for each offset.
--   - Numbers are natural numbers with the wrap-around of uint32_t and uint64_t written out; an int is
--     given by its 32-bit pattern. A buffer or a path that may be null is an Option. A char array that
--     the code only uses as a string is the list of its bytes up to the terminator.
--   - A failing calloc in fs_ops_init_bitmap, and the cleanup of format_disk, leave a null bitmap with
--     counts above 0, which alloc_data_block_from_bitmap, free_data_block_to_bitmap and
--     fs_ops_read_bitmap then read or write through. That call has no behaviour in C: the model ends it
--     with the error undefined, which is none of fs.h, and means nothing by the states after it.
--   - A file position does not come near 2 ^ 64: fs_write and fs_read compare counts where the code
--     compares the sums of position and size, which is the same below it.
--
-- A run is any sequence of calls of the functions of fs_ops.h, file_ops.h and user_manager.h that change
-- the global state, with any arguments. The disk simulator's own functions, and calls on a superblock or
-- a bitmap of the caller, which leave the global ones, stand in it as arbitrary changes of the disk.
-- fs_ops_mount, fs_ops_unmount, fs_ops_sync and fs_ops_check are only declared.
--
-- Loops and fuel: loops over blocks, bits, entries and users are structural recursion on the rounds that
-- the code's own bound leaves. The loops of fs_write and fs_read run on as many rounds as there are bytes
-- to move, which is enough since a round that goes on moves at least one.
--
-- The loop of main runs on a round more than the input has bytes; every round that goes on reads one.
--
-- Not modelled: the texts of the welcome and the help, disk_print_status, disk_error_to_string and
-- file_ops_print_status, inode.c and user.c (earlier versions that are not built), the test and demo
-- programs, and the kernel course work under Course_Design/Project_A_Linux_Kernel.
pub mod Base
pub mod Errors
pub mod Codec
pub mod Layout
pub mod Bitmap
pub mod Disk
pub mod Fs
pub mod Users
pub mod FileOps
pub mod System
pub mod Shell
pub mod Tests
