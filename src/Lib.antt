-- ===== src/Lib.antt =====
-- Verification library of the cuts compositor, a Wayland server in C. A client's requests arrive on
-- its connection; the connection keeps the client's objects in a hash map, and two bitmaps say
-- which ids are taken; a request is decoded by its signature and handed to the handlers, and an
-- event is encoded by its signature and sent. Linked lists carry everything else that is a
-- sequence. The window manager tiles the windows of the clients, and a daemon of its own opens the
-- terminals and the devices for the compositor. A handler works on what its objects stand for: the
-- surfaces of a client with their pending and active state, buffers, subsurfaces and windows. This
-- library models the data structures, the wire format, the objects and the dispatch of a connection,
-- most handlers of the core protocol and of the shells, the order of the scene, the tile layout and
-- the seat daemon.
--
-- Which file models which code:
-- - Base.Run: `Exec`, what a run of C code comes to. An access out of bounds, a null or dangling
--   pointer is `undefined`, a failed `assert` is `aborted`. Base.Bytes: blocks of bytes with their
--   length, whose reads and writes check their bounds, in little-endian order.
-- - Util.Bitmap: util/bitmap.c. A bitmap is its number of bits and a block of bytes.
-- - Util.Map: util/map.c. A map is an array of slots, each a chain of pairs, kept as a sequence: the
--   `prev` and `next` of the pairs are not modelled. `new`, `set`, `get`, `remove` and `destroy` are
--   the functions `c_map_*`.
-- - Util.List: util/list.c, on a heap of nodes with their `prev` and `next`; `Util.List.Chain` says
--   that a heap holds a given sequence of cells. `new`, `push`, `remove`, `get` and `idx` are the
--   functions `c_list_*`, with the parts of their bodies named.
-- - Util.Mem: util/mem.c, the reference counts; a block is its address with its metadata.
-- - Wayland.Wire: the readers and writers of wayland/util.c.
-- - Wayland.Message: in wayland/server.c, the loop over the arguments in `c_wl_connection_post`
--   with the header it writes (`encode`), and the loop in `dispatch` (`decode_args`).
-- - Wayland.Objects: in wayland/server.c, `c_wl_object_add`, `c_wl_object_get`, `c_wl_object_del`
--   and `c_wl_connection_init`, over Util.Map and Util.Bitmap.
-- - Wayland.Outbox: in wayland/server.c, `c_wl_connection_flush` and the end of
--   `c_wl_connection_post` that appends a message to the buffer of the connection.
-- - Wayland.Dispatch: in wayland/server.c, `dispatch`, `handle_request` and `_c_wl_error_set`.
-- - Wayland.Receive: in wayland/server.c, `c_wl_connection_dispatch` with the loop that splits the
--   received bytes into messages, `c_wl_connection_callback_done` and `c_wl_serial`.
-- - Wayland.Impl: the handlers of wayland/impl, on a `World` of blocks with reference counts.
--   Wayland.Impl.State has the structs of the headers, one table of the world for each;
--   Wayland.Impl.World has the lookups and macros of wayland/server.h and `c_malloc`, `c_ref` and
--   `c_unref`; the handlers have the names of the C functions without the interface.
-- - Wayland.Impl.Surface: the four functions `..._state_apply`. Wayland.Impl.Requests and
--   Wayland.Impl.Commit: wl_surface, wl_region and wl_compositor, in wayland/impl/wayland.c.
--   Wayland.Impl.Buffering and Wayland.Impl.Calls are the double buffer that they implement.
-- - Wayland.Impl.Shm, Wayland.Impl.Subsurface: wl_shm, wl_shm_pool, wl_buffer, wl_subcompositor and
--   wl_subsurface, in wayland/impl/wayland.c.
-- - Wayland.Impl.Positioner, Wayland.Impl.Xdg, Wayland.Impl.Popup: wayland/impl/xdg-shell.c.
--   Wayland.Impl.Layer: wayland/impl/wlr-layer-shell-unstable-v1.c. Wayland.Impl.Viewporter:
--   wayland/impl/viewporter.c.
-- - Wayland.Impl.Children: the lists of children as util/list.c keeps them. Wayland.Impl.Blocks: what
--   the steps on allocated blocks come to.
-- - Wm.Layout: in cuts.c, `tile`, `zoom`, `calc_tile_layout`, `count_tiled`, `client_border_sync`.
-- - Wm.Focus, Wm.Settings: in cuts.c, `tag_select_client` and `change_nmaster`, `change_border`,
--   `change_gap`.
-- - Compositor.Scene: in compositor/scene.c, the order of the nodes: `node_insert`, the functions
--   `c_scene_add_*`, `c_scene_node_remove` and `c_scene_node_raise`, and the assignments of cuts.c to
--   the layer of a node. The set-up `c_scene_init` overflows, so that what is shown starts from the
--   order that the operations need and keep.
-- - Seat.Kernel, Seat.Clients, Seat.Paths, Seat.Daemon: seat/session/impl/diazepam/daemon.c with
--   vt.c, and `starts_with` of util/helpers.c. `Seat.Daemon.Reach` is the daemon as a step relation.
-- - Base.Tests, Base.Lists, Base.Int: Boolean tests, list lemmas and the arithmetic of `int`.
--   Examples: runs at concrete inputs.
--
-- Numbers are natural numbers; where the code computes in 16, 32 or 64 bits the wrap-around is
-- written out. The loops of util/list.c run on fuel, the size of the list and two rounds more; a
-- list of n cells is walked in n rounds and ends at its sentinel, so this is never used up. The
-- loop that splits received bytes runs on `rounds`, 128 + 16 + 2: each round fills one of the 128
-- places for messages or one of the 16 for sync requests, or ends the loop. The addresses that
-- `calloc` returns are arguments of the operation, NULL for a failed allocation. Parameters are
-- the interfaces of the protocols, which a script generates at build time, with their handlers;
-- the results of `send`, `sendmsg`, `recvmsg`, `mmap`, `mremap` and of the calls that the seat daemon
-- makes; the addresses that `c_wl_interface_get` finds and two formats of libdrm; the comparison of
-- `double` numbers in viewporter.c; the
-- effect of the functions that `c_defer` sets; and the product of a width with mfact, a `float`.
-- The operations of Compositor.Scene and Seat.Daemon are steps of a relation, counted, so that a
-- bound on their number keeps the counters within their range.
--
-- The handlers take addresses from a list in the world, which may run out. A dangling `Text` of an
-- xdg_surface is marked, so that freeing it again is undefined. The recursion over subsurfaces runs
-- on fuel, the depth it may reach: more than the height of the tree is enough.
--
-- Not modelled: the insertions and the release of whole lists in util/list.c, the end of a
-- connection and the set-up of the server; of wayland/impl, wl_surface.destroy, the registry, seats,
-- data devices, xdg_surface.destroy, which leaves a dangling list, xdg_popup.reposition, which
-- overruns a member, and the smaller protocols; what the scene draws, input and output, and of the
-- window manager the change of tags and focus, the pointer and the bar. Logging is left out. Code
-- that only calls the kernel, libinput, EGL, gbm, fontconfig or freetype has no definition here.
pub mod Base
pub mod Util
pub mod Wayland
pub mod Compositor
pub mod Seat
pub mod Wm
pub mod Examples
