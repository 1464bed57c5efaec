-- ===== src/Screen/Pixmaps.antt =====
-- The pixmaps of app/src/main/cpp/lorie/InitOutput.c: lorieCreatePixmap, lorieCreateScreenResources,
-- lorieSetWindowPixmap and lorieActivityConnected.
use termux_x11_extra.Base.{
  ℕ, ◌+◌, ◌*◌, ◌&&◌, ◌||◌, not, Bool, true, false, List, [], ◌++◌, Option, none, some, ◌==◌,
  if◌then◌else◌,
}
use termux_x11_extra.Base.Int.{ℤ, pos, negsuc}
use termux_x11_extra.Buffer.{
  BufferType, regular, file_descriptor, hardware, Format, b8g8r8a8, r8g8b8x8, LorieBuffer, Log,
  Locking, lock, unlock,
}
use termux_x11_extra.Buffer.Create.{System, allocate_own}
use termux_x11_extra.Access.{Accessed, is_null, unlock_buffer, lock_buffer}
use termux_x11_extra.Channel.Link.{Link, Message, register_buffer, send_shared_state}
use termux_x11_extra.Screen.{Settings, Display}

-- What the system answers while a pixmap is made and locked, and the number of the new pixmap.
pub record Making : Type 0 where
  pub system : System
  pub locking : Locking
  pub has_memory : Bool
  pub fresh : ℕ

-- The private part, if it is made, `*new_fb_pitch`, the counter of LorieBuffer, and the log.
pub record NewPixmap : Type 0 where
  pub made : Option Accessed
  pub pitch : ℤ
  pub counter : ℕ
  pub log : Log

abbrev pub blank : Accessed
blank = record {
  buffer = none;
  locked = none;
  mem = none;
  was_locked = false;
  pointer = none;
  held = 0;
}

abbrev pub buffer_type : Settings → Bool → BufferType
buffer_type s backed =
    if not backed then regular else if s.legacy_drawing then file_descriptor else hardware

abbrev pub buffer_format : Settings → Format
buffer_format s = if s.flip then r8g8b8x8 else b8g8r8a8

abbrev pub four_times : ℤ → ℤ
four_times (pos n) = pos (n * 4)
four_times (negsuc n) = negsuc (n * 4 + 3)

-- From the call of LorieBuffer_lock on. LorieBuffer_description of NULL has the stride 0.
abbrev pub lock_new : Locking → ℕ → Log → Option LorieBuffer → NewPixmap
lock_new l counter log none = record { made = none; pitch = pos 0; counter = counter; log = log }
lock_new l counter log (some b) = record {
  made = some (lock_buffer l blank (some b)).0;
  pitch = four_times b.desc.stride;
  counter = counter;
  log = log;
}

-- lorieCreatePixmap; `backed` is the test of the usage hint.
unfoldable pub create_pixmap : Making → Settings → ℕ → Bool → ℕ → ℕ → NewPixmap
unfolding allocate_own lock
create_pixmap k s counter backed width height =
    let m =
      allocate_own k.system counter (pos width) (pos height) (buffer_format s)
        (buffer_type s backed) in
    if not k.has_memory
    then record { made = none; pitch = pos 0; counter = counter; log = [] }
    else if width == 0 || height == 0
    then record { made = some blank; pitch = pos 0; counter = counter; log = [] }
    else lock_new k.locking m.counter m.log m.made

abbrev pub put : {A : Type 0} → ℕ → A → (ℕ → A) → ℕ → A
put i x f j = if j == i then x else f j

abbrev pub content_of : Option ℕ → (ℕ → Option Accessed) → Option Accessed
content_of none pixmaps = none
content_of (some a) pixmaps = pixmaps a

abbrev pub put_content : Option ℕ → Option Accessed → Display → Display
put_content none p d = d
put_content (some a) p d = record d { pixmaps = put a p d.pixmaps }

abbrev pub buffer_of : Option Accessed → Option LorieBuffer
buffer_of none = none
buffer_of (some p) = p.buffer

abbrev pub is_there : Option LorieBuffer → Bool
is_there none = false
is_there (some b) = true

-- The block for the old pixmap.
abbrev pub unlock_old : ℤ → Option Accessed → Option Accessed
unlock_old ret none = none
unlock_old ret (some p) =
    if is_there p.buffer && not (is_null p.locked)
    then some (record p { buffer = unlock_buffer ret p.buffer; locked = none; was_locked = false })
    else some p

-- The block for the new pixmap.
abbrev pub lock_given : Locking → Option Accessed → Option Accessed
lock_given l none = none
lock_given l (some p) =
    if is_there p.buffer && is_null p.locked
    then some (record (lock_buffer l p p.buffer).0 { was_locked = false })
    else some p

-- lorieSetWindowPixmap of the root window from the pixmap that it has.
abbrev pub set_from : Locking → ℤ → Option ℕ → Option ℕ → Display → Display
set_from l ret old new d =
    let d1 = put_content old (unlock_old ret (content_of old d.pixmaps)) d in
    let d2 = put_content new (lock_given l (content_of new d1.pixmaps)) d1 in
    record d2 { root_pixmap = new }

-- lorieSetWindowPixmap of the root window. For another window it only calls the X server's function.
unfoldable pub set_root_pixmap : Locking → ℤ → Option ℕ → Display → Display
unfolding lock unlock
set_root_pixmap l ret new d = set_from l ret d.root_pixmap new d

-- lorieRegisterBuffer of a buffer that may be NULL.
abbrev pub register_some : Link → Option LorieBuffer → Link × List Message
register_some link none = (link, [])
register_some link (some b) = register_buffer link b.desc.id

-- lorieRegisterBuffer(LORIE_BUFFER_FROM_PIXMAP(pScreenPtr->devPrivate))
abbrev pub register_screen : Display → Display × List Message
register_screen d =
    let (link, messages) =
      register_some d.link (buffer_of (content_of d.screen_pixmap d.pixmaps)) in
    (record d { link = link }, messages)

-- lorieActivityConnected; `memfd` is stateFd.
unfoldable pub activity_connected : ℕ → Display → Display × List Message
unfolding register_buffer
activity_connected memfd d =
    let d1 = record d { draw_requested = true; cursor_updated = true } in
    let (link, sent) = send_shared_state d1.link memfd in
    let (d2, registered) = register_screen (record d1 { link = link }) in (d2, sent ++ registered)

-- Where CreatePixmap fails, DamageRegister is given a field of the pixmap NULL.
pub data Created : Type 0 where
  crash : Created
  created : Display → List Message → Log → Created

abbrev pub with_screen : Making → NewPixmap → Display → Option Accessed → Created
with_screen k new d none = crash
with_screen k new d (some p) =
    let d1 = record d {
      pixmaps = put k.fresh (some p) d.pixmaps;
      screen_pixmap = some k.fresh;
      counter = new.counter;
    } in
    let (d2, messages) = register_screen d1 in created d2 messages new.log

-- lorieCreateScreenResources, without the damage and the timer.
unfoldable pub create_screen_resources : Making → Display → Created
unfolding create_pixmap register_buffer
create_screen_resources k d =
    let new = create_pixmap k d.settings d.counter true d.settings.width d.settings.height in
    with_screen k new d new.made
