-- ===== src/Lib.antt =====
-- The WiFi sniffer: a model of the kernel module and of the userspace program, and theorems on both.
--
-- The kernel module (kern/) receives every frame of a monitor interface, parses its header and
-- multicasts header, radiotap data and body as a generic netlink message. The userspace program
-- (user/src/) receives the messages, keeps a list of access points and a ring of packets, draws both
-- with ncurses, removes access points that fall silent, and hops from channel to channel.
--
-- Files and code:
--   Prelude      the shared names: tests on numbers and byte strings, lists, results of C code
--   FrameTypes   user/src/ft_parser.{h,c}, common/common.h: enumerations, names, fixed parameters
--   ActionFrames user/src/action_frame_parser.{h,c}: categories and codes of action frames
--   Channel      user/src/channel_hop.{h,c}: set_channel, next_channel, channel_to_freq
--   Ctx          user/src/ctx.{h,c}, user/src/helpers.h: struct ctx, struct ap, get_ap
--   Ies          user/src/ie_iter.{h,c}: ie_iter, ie_iter_next, iter_packet_ies; Ies.Memory: malloc
--                and free in the iterator
--   Handler      user/src/main.c: frame_handler, handle_frame_info; Handler.Table: the access points
--                as a map from addresses to entries
--   Ui           user/src/ui.c: draw_ui and the four windows; Ui.Terminal: init_ui, init_ctx,
--                free_ctx, and the calls that open, show and close the windows
--   MainLoop     user/src/main.c: the body of the loop in main; MainLoop.Views: the keys and that map;
--                MainLoop.Order, MainLoop.Remaining: the order of the list, and removals;
--                MainLoop.Scroll: the scroll position; MainLoop.Machine: a round as steps on the list;
--                MainLoop.Session: half a minute with beacons
--   Socket       user/src/main.c: init_netlink_socket
--   Program      user/src/main.c: main, from its first call to its return; Program.Machine and
--                Program.Session: runs of both kinds; Program.NoSocket: runs without a socket;
--                Program.Stays: access points that stay known
--   Kernel       kern/sniffer_main.{h,c}, kern/sniffer_netlink.{h,c}: sniffer_rx_handler,
--                send_to_userspace, sniffer_init, sniffer_clean; Kernel.Frames: frames as bytes,
--                Kernel.Delivery: a beacon from the card to the list of access points,
--                Kernel.Wire: the bytes of the messages; Kernel.Fits, Kernel.Typed: C types;
--                Kernel.Short: frames with a short header
--   Tests        concrete frames and runs
--
-- A struct is a record, an array is the list of its full length, a pointer to an access point is its
-- index. A function that changes the state returns the new one. Where C has undefined behaviour
-- (an access out of bounds, a null pointer, a division by zero) the result is a `fault` that names
-- the place. Fixed-width counters keep their wrap-around: 32 bits for the packet counters, 8 bits
-- for the scroll position and for the length of a body. Sockets, messages and locks are lists of
-- the calls that the code makes.
--
-- The code that is not in the repository is an argument. What libnl and the kernel's functions
-- return are records (NlReplies, SocketReplies, SendReplies, InitReplies), and so is what ncurses and
-- calloc return at the start (TermReplies); the messages, the keys, the time and the number of
-- colours of one round are the record Input, and a run of the program is a list of them: where it
-- ends, the program is still in its loop. libnl is taken to need a socket: to receive from or to
-- close a null pointer is a fault. The layout of 802.11 headers, the masks and the radiotap
-- iterator are the record Ieee80211, of which Kernel.Standard.IsStandard says what the standard and
-- linux/ieee80211.h fix; the gaps that the compiler leaves in structs are the record Abi, and libnl's
-- nla_parse is a function of which Kernel.Wire.Roundtrip.IsParser says what it promises. In the
-- frame handler and in one round of the loop, time(NULL) is read once.
--
-- newwin gives NULL for a window of negative size, as on a terminal of fewer than 30 columns. ncurses
-- documents that a call on such a window returns ERR and does nothing, and getmaxy then is -1: the
-- height in Input is an integer, and the tests of the code on it keep the conversions of C.
-- The conversion of cur_col + 1 to a short is a fault where it does not fit, which C leaves to the
-- implementation. A frame direction is one of the four values of the enumeration; reading any other
-- is a fault, so the default of frame_direction_to_string is never reached. The arguments of init_pair
-- are numbers without the width of a short.
--
-- Two loops run on fuel. The reader of information elements gets one round for each byte and one
-- more, and every round moves on by two bytes or more. The removal of silent access points gets
-- aps_count rounds, and every round lowers aps_count - i by one.
--
-- The handler takes malloc in ie_iter to succeed, as the code does; Ies.Memory has the iterator with
-- and without memory.
--
-- Not modelled: error messages on stderr and in the kernel's log; the shell scripts and Makefiles;
-- user/src/uthash.h, which is third-party code that nothing includes.
pub mod Prelude
pub mod FrameTypes
pub mod ActionFrames
pub mod Channel
pub mod Ctx
pub mod Ies
pub mod Handler
pub mod Ui
pub mod MainLoop
pub mod Kernel
pub mod Socket
pub mod Program
pub mod Tests
