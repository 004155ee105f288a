-- ===== src/Lib.antt =====
-- Verification of flareOS, a small operating system for x86-64 in C.
--
-- The program. kernel/core/kernel.c starts the drivers (kernel/drivers) and the shell
-- (kernel/core/shell.c), which gives its keys to one of the programs: the editor
-- (kernel/core/editor.c), the game (kernel/core/snake.c) or the browser (kernel/core/browser.c).
-- Keys come from the interrupt handler of kernel/drivers/keyboard.c through a ring. Files are held in
-- memory and written through to a disk by kernel/fs/ext4.c in a format of its own, FlareFS. The
-- browser loads pages through kernel/core/net.c. Memory comes from a bump allocator,
-- kernel/core/memory.c, which the shell resets when a program ends.
--
-- The files.
--   Prelude: names of the libraries, Boolean tests on numbers, lists, and machine integers.
--   CString: kernel/core/string.c. A buffer is the list of its bytes, and an access behind its end is
--     `none`. CString.Copying and CString.Comparing hold the proofs.
--   Memory: kernel/core/memory.c. The heap is its offset; kmalloc returns an address and wraps as the
--     64-bit and 32-bit operations of the source do. Memory.Regions holds the proofs.
--   Key, Keyboard: the key codes of include/kernel.h and kernel/drivers/keyboard.c. The scancode that
--     the port gives is an argument. A poll is two steps, between which an interrupt may come.
--     Keyboard.Keymaps holds the tables, Keyboard.Ring and Keyboard.Delivery the queue that the ring
--     implements, and Keyboard.Modifiers the shift, control and extended states.
--   BlockDevice: the contract of a disk that FlareFS relies on, and a disk in memory that meets it.
--   FlareFs: kernel/fs/ext4.c but its reader of ext4. State, Encoding and Io are the records on the
--     disk and their transfer; Ops and Mount are writing, removing, formatting and mounting; the other
--     files hold the proofs. A file's contents are held by value.
--   Editor: kernel/core/editor.c but its drawing. Lines are buffers of 256 bytes that hold C strings.
--   Snake: kernel/core/snake.c but its drawing. The used part of the arrays of coordinates is a list.
--   Net: kernel/core/net.c but its blocking calls. Tcp, Arp, Dns, Dhcp and Url are its parts; Poll
--     gives the received frames to them; Frames builds what is sent; Async is the asynchronous HTTP
--     client. What a handler sends is an output. Link is the way of a segment through the buffers and
--     the card of the sender to net_poll of the receiver. Net.Receiving, Net.Stream, Net.Padding,
--     Net.Duplicates and Net.Waiting hold proofs; Net.Stream is the stream from one end of
--     a connection to the other.
--   Shell: kernel/core/shell.c. Text and Lines are the text builders and the lines of a session;
--     State holds the variables, the machine that commands reach, and the interfaces of the browser
--     and the network. Words reads command lines; Files, Status, Curl and Apps are the commands, Run
--     and Keys the dispatch; Drawing and Tasks are the screens, as lists of console calls. The other
--     files hold the proofs. What the file system and the programs take from the heap in a call is
--     an argument. Messages on the serial port are left out.
--   Paging: kernel/arch/x86_64/paging.c. The pool of tables is a function of a table's number and an
--     entry's. Paging.Walking says what the processor finds in the tables; the other files hold the
--     proofs.
--   Rtl8139: kernel/drivers/rtl8139.c, over the port instructions and the PCI bus, which are a parameter.
--     The receive buffer that the card writes is an argument.
--   Ata: kernel/drivers/ata.c, over the port instructions of include/x86_64.h, which are a parameter.
--
-- Correspondence. A definition has the name of the C function or variable that it stands for; where a
-- loop or a part of a function is a definition of its own, its comment says which. Global variables
-- are the fields of a record that goes in and comes out. Unsigned integers are numbers with their
-- wrap-around written out; where the source may subtract below 0, the definition says what follows.
--
-- Bounds and fuel. Most loops are recursive in a list or in a number of rounds that the source
-- fixes: 4096 attempts to place food, 500 lines of a file, a count of sectors, 1000000 polls of the
-- disk. The loops over the labels of a DNS packet and of a host name have as many rounds as there
-- are bytes, and the loop over DHCP options has 60; each round moves on by at least one byte, and
-- skip_labels-ends, skip_question-enough, encode_labels-enough and read_options-enough say that this
-- is enough. The wrapping of a line and the flags of `curl` have as many rounds as there are
-- characters, and the digits of a number the 24 places of their buffer; Shell.Wrapping.chunks-concat
-- and Shell.Decimal.decimal-value say that this is enough. The loops over pages have as many rounds
-- as there are pages. A byte that the source reads behind the end of a packet is given by a
-- parameter, `beyond`.
--
-- Not modelled: drawing (kernel/core/video.c, kernel/core/console.c), kernel/core/browser.c, the
-- buses and the timers, the interrupt tables, the boot code, the
-- ext4 reader, the blocking HTTP calls, and the tools in scripts. They drive hardware or are left
-- for later work. A send is taken to return at once: that arp_resolve handles other packets while it
-- waits is not modelled. The sizes of ip_buf and frame are tested in Net.Link only, for TCP; the packets
-- of Net.Frames are built for any payload. Net.Link takes the MAC address as resolved and the card as
-- one that reports every frame as sent.
pub mod Prelude
pub mod CString
pub mod Memory
pub mod Key
pub mod Keyboard
pub mod BlockDevice
pub mod FlareFs
pub mod Editor
pub mod Snake
pub mod Net
pub mod Ata
pub mod Shell
pub mod Paging
pub mod Rtl8139
