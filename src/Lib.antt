-- ===== src/Lib.antt =====
-- A model of NetHogs, the program that shows the network traffic of each process, and what is
-- proved of it. Paths are from the root of the repository.
--
-- A captured frame comes from libpcap to the parser (src/decpcap.c), which takes the headers off and
-- calls back (src/nethogs.cpp). A TCP or UDP segment becomes a Packet (src/packet.cpp), which is
-- added to its Connection, or to a new one (src/connection.cpp); a new connection is given to a
-- Process (src/process.cpp), by the table from connections to inodes that is read from /proc/net/tcp
-- (src/conninode.cpp) and the table from inodes to programs that is read from /proc
-- (src/inode2prog.cpp). A refresh closes stalled connections, drops silent processes and sums up.
--
-- Which file models which part:
--   LocalAddr: class local_addr with contains (src/nethogs.h, src/nethogs.cpp), getLocal
--     (src/packet.cpp). The list that getifaddrs gives is a parameter.
--   Packet: class Packet (src/packet.h, src/packet.cpp): newInverted, Outgoing, gethashstring, match,
--     matchSource. Methods that set fields return the packet.
--   PackList: PackList::add, PackList::sumanddel. Connection: the object of class Connection. Store:
--     its constructor and destructor over the heap and the global list (src/connection.h,
--     src/connection.cpp). A pointer is a number; a deleted object is no longer in the heap.
--   Process: getLastPacket, getkbps, gettotal. Timeouts: process_init, remove_timed_out_processes,
--     and do_refresh of src/cui.cpp up to the sorting of the lines. World: the global state,
--     findConnection (src/connection.cpp) and both getProcess (src/process.h, src/process.cpp).
--   Inode2Prog: src/inode2prog.h, src/inode2prog.cpp; Inode2Prog/Reading: read_file. Sscanf: the
--     conversions of sscanf that addtoconninode uses. ConnInode: src/conninode.cpp, whose sscanf is
--     ConnInode/Scanning. Sscanf/Hex, Sscanf/Decimal and ConnInode/Kernel: rows of /proc/net/tcp as
--     the kernel prints them.
--   Callbacks: process_ip, process_ip6, process_tcp, process_udp (src/nethogs.cpp). Decpcap:
--     src/decpcap.h, src/decpcap.c. Capture: the handle that src/main.cpp and src/libnethogs.cpp set
--     up, and the dispatch of packets. Devices: src/devices.h, src/devices.cpp.
--   Records: nethogsmonitor_handle_update with its record map. Opening: dp_open_live (src/decpcap.c),
--     how the library opens a device, and the waiting of both front ends. Monitor: nethogsmonitor_init on fuel, which Monitor/Starting bounds;
--     Monitor/Rounds: the loop (src/libnethogs.h, src/libnethogs.cpp). Records/Client: a client that
--     listens to its calls, which Monitor/Mirroring follows through the loop, and
--     Monitor/Session from the start.
--   Program: the options of src/main.cpp and what it does up to its main loop, with its own copy of
--     the opening of a device. Program/Rounds: that
--     loop, with do_refresh and show_trace of src/cui.cpp. Program/Main: `main` as a whole.
--   Cui: ui_tick and get_devlen; Cui/Cutting: the cutting of texts; Cui/Line: class Line;
--     Cui/Drawing: what it writes; Cui/Captions: the captions; Cui/Screen: the order of the lines and
--     show_ncurses (src/cui.cpp). The row of a text is given once for a line, and each text with its column.
--   Showing: what class Line relies on, which Program/Safe follows through the main loop and
--     Program/Main/Outcome through the program.
--   Base: shared names, tests and results. Safety: the invariant of the lists, and what keeps
--     it. Tests: trials.
--
-- How the code is read. A call that can stop is a `Result`: a value, or the way in which it stops (an
-- assertion, NULL, a deleted object, an index out of range, exit). Loops are recursion on the list
-- they walk, so there is no fuel, but for the digits of a number (20 digits are enough for any
-- unsigned long) and the loop of nethogsmonitor_init, which may try a device again. The main loops
-- run over turns that are given, each by what it finds. u_int32_t and u_int64_t sums wrap (add32,
-- add64 of Base/Int), and a time in an `int` is taken modulo 2^32 (to_int). Seconds are natural
-- numbers, so the clock stands after 1970.
-- Parameters are what the C library makes of an address, the files of /proc, the owner of a process,
-- the entries of getifaddrs, the packets of libpcap, and what memory holds before it is written. The
-- machine is little-endian, DEBUG and REVERSEHACK are 0, the platform is Linux, and output to the
-- terminal is left out.
--
-- Not modelled: the first row of the screen of src/cui.cpp and the first line of its trace (a number
-- that it prints is a parameter, the value of a line is the bits of a float, and a sum of such values
-- is given by what it adds up); getopt and the help text of src/main.cpp, and SIGINT, which
-- does what the key `q` does; src/conninode_test.cpp, src/decpcap_test.cpp; contrib.
pub mod Base
pub mod LocalAddr
pub mod Packet
pub mod PackList
pub mod Connection
pub mod Store
pub mod Process
pub mod Inode2Prog
pub mod Showing
pub mod Sscanf
pub mod ConnInode
pub mod World
pub mod Callbacks
pub mod Decpcap
pub mod Timeouts
pub mod Safety
pub mod Capture
pub mod Devices
pub mod Tests
pub mod Cui
pub mod Records
pub mod Opening
pub mod Monitor
pub mod Program
