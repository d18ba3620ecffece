-- ===== src/Lib.antt =====
-- anyconsole: a console of emulators that run in a guest, with one overlay and any number of pads.
--
-- These parts are modelled. The input daemon, guest/padd.c, reads pads, keyboards and mice, maps
-- what each does to the controls of one virtual pad per seat, tells the overlay what is pressed while
-- its menu is open, and emulates a keyboard or a pointer for a device whose mode asks for one. The
-- overlay, guest/overlay.c, decides which device plays on which seat and tells the daemon. It draws a
-- scene, guest/scene.c, that a skin's script, guest/script.c, builds. The compositor,
-- guest/compositor.c, shows the game and the overlay on one display. app/recipes/redream/commands.c is
-- loaded into one of the emulators, to save and restore its states.
--
-- Files, and the code each is about:
--   Base: lists, arrays, integers and counted loops that the others share.
--   Padd/Codes: the numbers of the kernel's input interface, and the bounds of guest/config.
--   Padd/Controls: controls[], the binding tables and the lookups in them.
--   Padd/Modes: enum mode, enum kind, and what a key code means to the menu or to an emulated device.
--   Padd/Floats: C's double, a parameter, with the laws of IEEE 754 that the theorems use.
--   Padd/State: struct device, struct pad, and the globals of padd as a record `Padd`. What the
--     program writes is the list `out` of its `Outputs`.
--   Padd/Mapping: converted, mapped and effective. Mapping/Rest is about controls at rest.
--   Padd/Sync: sync_control and sync_pad. Sync/Emitted and Sync/Synced are about what a pad was told.
--   Padd/Devices: drive_control and the emulation. Devices/SameView, Drive and Frame are about it.
--   Padd/Menu: pad_input, key_input and the commands for the overlay.
--   Padd/Lifecycle: release, assign, set_mode, set_menu, plug, unplug. Lifecycle/Release, Synced, Menu
--     and Moves are about them.
--   Padd/Watches: watched[] and watches[]. Watches/Drops is about what unwatch_pad removes.
--   Padd/Effects: the rumble effects of a game. Effects/Stored is about their table, and Rumbled about
--     what the motors are told.
--   Padd/Bluetooth: pairing. Bluetooth/Texts has its strings, Agent the requests that BlueZ makes,
--     Objects what BlueZ says about its objects, Events all of these as one step function, and
--     Lengths, Kept and Sound are about what holds after any sequence of them.
--   Padd/Maps: the mappings of a game. Maps/Routes and Loaded are about what load_maps leaves.
--   Padd/Tests: tests, and the examples of the theorems.
--   Overlay/Players: players[] and members[], login and logout. Players/Search and Drops are about its
--     searches and removals, Seated, Login and Logout about its operations. Players/Session takes
--     over players and devices, and Adopt is about that.
--   Overlay/Notices: the notifications. Notices/Order is about their order and number.
--   Overlay/Menu: the views, the stacks of the dashboard and of the guides, push and top. Menu/Screens has
--     the screens, actions and commands, Rows has build, Act what a row does, Navigate what a button
--     does, and Requests what other programs and starting games do. Stacks, Laid, Places, Tops,
--     Lobbies, Acting, Running, Navigating, Pressing and Opening are about what keeps the stacks
--     sound, Selection about the row that is selected, and Broken about what breaks them.
--   Overlay/Windows: windows[] and its handlers. Windows/Registry has the windows as a partial map, and
--     Closing, Opening and Refined relate the table to it; Games is about the window of a game.
--   Overlay/Choices: the settings that a row cycles through.
--   Compositor/Boxes: the boxes that pictures are shown in. Boxes/Inside is about where they lie.
--   Compositor/Displays: displays, modes and GPUs, and how they compare. Displays/Choice is
--     choose_display with what it calls; Order, Modes, Shown and Chosen are about the choices.
--   Scene/Floats: C's float, a parameter.
--   Scene/Atlas: the places of glyphs. Atlas/Packed is about their overlap.
--   Scene/Glyphs: the hash table of a face's glyphs. Glyphs/Probe is about its searches, Found and Kept
--     about find_glyph and glyph.
--   Scene/Lines: break_lines. Lines/Partition is about the lines it makes.
--   Scene/Tree: the tree of nodes. Tree/Counts, Consistent and Freed are about what keeps it one.
--   Scene/Values: the values of properties, and their motion. Values/Props has the table props[], Nodes
--     the properties of one node, and Settled is about values that come to rest.
--   Scene/Images: the cache of images and the decoder's jobs. Images/Nodes has node_image and the events
--     of both threads; Counted, Owned, Decoding and Drawing are about images that are in use.
--   Script/Timers: the timers of a script. Timers/Due is about those that are due.
--   Redream/States: the saves behind a state. States/Sizes and Restored are about reading them back.
--   Redream/Commands: the commands and the two threads, as events. Commands/Order and Ends are about
--     what runs in which order.
--
-- When the menu closes padd writes nothing: a control that was moved while it was open reaches its pad
-- with the seat's next input. The invariant on pads in step is therefore about the other handlers.
--
-- The menu's rows have no texts. What a view lists, which files there are and whether programs start are
-- fields of `World`, so that the theorems hold whatever these are.
--
-- Nearly every loop is bounded by a table's size. The search of a hash table has as many steps as the
-- table has slots, and script_run_timers has fuel: one round more than there are timers due is enough
-- while callbacks leave no more timers due than they find, which theorems show. An `int` is an
-- unbounded integer: no value of this code comes near its bounds, but for the gain and the count that a
-- game sends with an effect, which are read as 32 bits. The keys that libevdev has as held, the width
-- of the canvas, the time and whether a process can be started are fields of the state.
--
-- Not modelled: the calls of uinput, udev, SDL, D-Bus and Opus themselves, the rest of the overlay, the
-- drawing of the scene and of the compositor, whose code is calls of OpenGL and wlroots, and the other
-- programs of the guest. The calls of Yoga, FreeType, QuickJS and wlroots that the modelled code makes
-- are parameters, or are recorded.
pub mod Base
pub mod Padd
pub mod Overlay
pub mod Compositor
pub mod Scene
pub mod Script
pub mod Redream
