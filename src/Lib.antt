-- ===== src/Lib.antt =====
-- A model of the native part of Termux:X11-Extra, an X server for Android that draws into an Android
-- activity. The C code stands in app/src/main/cpp/lorie.
--
-- The X server process and the activity process each load the code. The server keeps the root
-- window in a buffer that both processes can map (buffer.c), tells the renderer thread of the
-- activity over shared memory when to draw it (InitOutput.c, renderer.c), and exchanges events,
-- buffers and clipboard text with the activity over a socket (cmdentrypoint.c, activity.c,
-- clipboard.c).
--
-- Files
-- * Base, Base/*: shared names, Boolean tests, lists over the native numbers, laws of `&` and `|`.
-- * Text, Text/*: the text conversions of clipboard.c. A pointer is the list of the bytes from it to
--   the end of its block, so a read outside the block is `none`. All loops recur on that list.
-- * Vblank, Vblank/*: the Present backend of InitOutput.c: the queue `pvfb->vblank_queue` and the
--   counter `pvfb->current_msc`. `Call` lists the calls that reach it.
-- * Buffer, Buffer/*: buffer.c and buffer.h. Each operation has a log of what it acquires and gives
--   back; Buffer.Balance counts a resource in it. `System` and `Receiver` hold what the calls of
--   the kernel, of Android and of the allocator return.
-- * Renderer, Renderer/*: the lists of renderer.c, rendererShouldWait, and the rounds of the renderer
--   thread with what they do to the state that the two processes share (`Shared`).
--   Renderer.Windows has the windows and surfaces.
-- * Server, Server/*: lorieRedraw and lorieMoveCursor of InitOutput.c. Server.Frames runs the server's
--   frames and the renderer's rounds in any order, each as one step; what the two processes
--   do at the same time inside one redraw is not told apart.
-- * Cursor, Cursor/*: lorieConvertCursor and lorieSetCursor of InitOutput.c. A read or a write outside
--   an array is `none`.
-- * Keyboard, Keyboard/*: InputXKB.c. The key map and the device are the X server's and are
--   arguments; Lookup searches the map, Modifiers has the keys for fake modifiers, Added the
--   symbols that the server adds, Choice the key for a symbol, Events its events.
-- * Clipboard, Clipboard/*: clipboard.c from line 184 on, on top of Text. The X server's functions are
--   the fields of `XServer`; Receive takes a selection from X clients, Convert gives the activity's
--   data to them, Own takes the selection.
-- * Channel, Channel/*: cmdentrypoint.c. Touch has handleTouchEvent, Link the connection and the buffers
--   that the activity knows, Pointer the stylus and the mouse, Dispatch the switch of
--   handleLorieEvents on top of Keyboard and Clipboard.
-- * Access, Access/*: the EXA hooks of InitOutput.c, on top of Buffer and Channel.Link;
--   Access.Import has loriePixmapFromFds.
-- * Mutex, Mutex/*: lorie_mutex_lock and lorie_mutex_unlock of lorie.h; the fuel is the rounds of the
--   loop. Access and Server hold the lock in one step and do not use it.
-- * Screen, Screen/*: the arguments, the window's size and name, and the root window's pixmap of
--   InitOutput.c, on top of Access, Vblank and Channel.Link. Screen.Runs changes the size and the
--   connection in any order.
-- * Activity, Activity/*: activity.c over the bytes of the socket. Send has the functions that write,
--   Serve the loop of handleLorieEvents that reads, Receive xcallback and connect_; Mirror joins
--   Channel.Link, the messages on their way, and the lists of Renderer. `Abi` and `ReplyAbi` hold
--   how the compiler lays the structs out.
-- * Flip, Flip/*: loriePresentFlip of InitOutput.c, on top of Buffer.
--
-- Numbers: a C integer is a native number, with its wrap-around written out where the code can
-- reach it; a signed integer whose sign is tested is a value of Base.Int.ℤ. size_t has the 64 bits
-- of the 64-bit builds.
-- Bounds and fuel: release_rounds takes as fuel the number of references that the buffers of a
-- list have, which is enough by Renderer.Sweep. The loop of lorieHandleClipboardData takes the
-- length of its queue, which is enough by Clipboard.Delivery. The loops over the socket and over
-- a text take as fuel the bytes there, of which each round takes one at least. The loop of
-- lorie_mutex_lock may wait for ever; Mutex.Recovery says when it ends. No other function takes
-- fuel.
--
-- Not modelled: the Java sources, the sources of the X server and the other git submodules, the
-- shader and EGL set-up, and the copy of libandroid-shmem in lorie/shm. Of lorie itself the
-- set-up of the input devices and of the screen, the picture that a new size copies and the
-- wake-up of the renderer thread are left out.
mod Base
pub mod Text
pub mod Vblank
pub mod Buffer
pub mod Renderer
pub mod Server
pub mod Cursor
pub mod Flip
pub mod Keyboard
pub mod Clipboard
pub mod Channel
pub mod Access
pub mod Activity
pub mod Screen
pub mod Mutex
