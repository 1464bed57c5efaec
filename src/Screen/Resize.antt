-- ===== src/Screen/Resize.antt =====
-- lorieRRScreenSetSize of app/src/main/cpp/lorie/InitOutput.c: the root window gets a pixmap of the new
-- size.
use termux_x11_extra.Base.{
  ℕ, Bool, true, false, List, [], ◌++◌, Option, none, some, ◌==◌, if◌then◌else◌,
}
use termux_x11_extra.Base.Int.{ℤ}
use termux_x11_extra.Buffer.{Log}
use termux_x11_extra.Vblank.{Notice, perform_vblanks}
use termux_x11_extra.Access.{Accessed, destroy_pixmap}
use termux_x11_extra.Channel.Link.{Message, register_buffer}
use termux_x11_extra.Screen.{Display}
use termux_x11_extra.Screen.Pixmaps.{
  Making, NewPixmap, create_pixmap, put, set_root_pixmap, register_screen,
}

-- What the X server and the system answer: GetTimeInMicros, present_restore_screen_pixmap, the new
-- pixmap, what Android's unlock returns, whether GL and a display are there, and whether DestroyPixmap
-- drops the last reference of the old pixmap.
pub record Resizing : Type 0 where
  pub clock : ℕ → ℕ
  pub restore : Display → Display
  pub making : Making
  pub unlock_ret : ℤ
  pub context : Bool
  pub display : Bool
  pub is_last : Bool

-- Where CreatePixmap fails, DamageRegister is given a field of the pixmap NULL.
pub data Resized : Type 0 where
  crash : Resized
  resized : Display → List Notice → List Message → Log → Resized

abbrev pub is_same_pixmap : Option ℕ → ℕ → Bool
is_same_pixmap none a = false
is_same_pixmap (some b) a = b == a

-- lorieSetPixmapVisitWindow at the root window, with which TraverseTree begins. The windows that it comes to
-- from there get the screen's pixmap from the X server.
unfoldable pub visit_root : Resizing → ℕ → Display → Display
unfolding set_root_pixmap
visit_root z old d =
    if is_same_pixmap d.root_pixmap old
    then set_root_pixmap z.making.locking z.unlock_ret d.screen_pixmap d
    else d

-- DestroyPixmap(oldPixmap)
abbrev pub destroyed_content :
    Resizing → ℕ → Display → Option Accessed → Display × List Message × Log
destroyed_content z old d none = (d, [], [])
destroyed_content z old d (some p) =
    let r = destroy_pixmap z.context z.display z.unlock_ret d.link p in
    if z.is_last
    then (record d { pixmaps = put old none d.pixmaps; link = r.link }, r.messages, r.log)
    else (d, [], [])

-- The block under `if (oldPixmap)`. The picture that is copied is left out.
unfoldable pub replace_old : Resizing → Option ℕ → Display → Display × List Message × Log
unfolding visit_root destroy_pixmap
replace_old z none d = (d, [], [])
replace_old z (some old) d =
    let d1 = visit_root z old d in destroyed_content z old d1 (d1.pixmaps old)

-- From CreatePixmap on.
abbrev pub with_new : Resizing → List Notice → NewPixmap → Display → Option Accessed → Resized
with_new z notices new d none = crash
with_new z notices new d (some p) =
    let fresh = z.making.fresh in
    let d1 = record d {
      pixmaps = put fresh (some p) d.pixmaps;
      screen_pixmap = some fresh;
      counter = new.counter;
    } in
    let (d2, sent, log) = replace_old z d.screen_pixmap d1 in
    let (d3, registered) = register_screen d2 in
    resized (record d3 { cursor_moved = true }) notices (sent ++ registered) (new.log ++ log)

-- lorieRRScreenSetSize
unfoldable pub resize : Resizing → ℕ → ℕ → Display → Resized
unfolding perform_vblanks create_pixmap replace_old register_buffer
resize z width height d =
    let (present, notices) = perform_vblanks z.clock d.present in
    let d1 = z.restore (record d { present = present }) in
    let d2 = record d1 { settings = record d1.settings { width = width; height = height } } in
    let new = create_pixmap z.making d2.settings d2.counter true width height in
    with_new z notices new d2 new.made
