-- ===== src/Activity/Ends.antt =====
-- The two ends of the connection together: the server's list of registered buffers in
-- app/src/main/cpp/lorie/cmdentrypoint.c, the messages on their way, and the activity with its renderer
-- (app/src/main/cpp/lorie/activity.c and app/src/main/cpp/lorie/renderer.c). The socket keeps the order;
-- the renderer's thread makes its rounds at any time.
use termux_x11_extra.Base.{ℕ, ◌≡◌, List, [], ◌∷◌, ◌++◌, Option, none, some}
use termux_x11_extra.Buffer.{LorieBuffer}
use termux_x11_extra.Buffer.Receive.{set}
use termux_x11_extra.Channel.Link.{
  Link, Message, register_buffer, unregister_buffer, handle_error, add_fd,
}
use termux_x11_extra.Renderer.{Renderer, round}
use termux_x11_extra.Renderer.Lists.{held}
use termux_x11_extra.Activity.Receive.{
  ReplyHost, Activity, add_received, hang_up, connect, handle_reply, remove_buffer_head,
}
use termux_x11_extra.Activity.Known.{IsSingle}

-- A message on its way, with the buffer as it is received.
pub data Parcel : Type 0 where
  add_parcel : LorieBuffer → Parcel
  remove_parcel : ℕ → Parcel

-- The server's list, what is on its way, and the activity.
pub record Ends : Type 0 where
  pub link : Link
  pub way : List Parcel
  pub activity : Activity

pub data EndsStep : Type 0 where
  registering : LorieBuffer → EndsStep
  unregistering : ℕ → EndsStep
  delivering : EndsStep  -- the activity reads the first message
  rounding : EndsStep
  hanging : EndsStep  -- xcallback sees the end of the connection
  failing : EndsStep  -- handleLorieEvents sees it
  connecting : ℕ → EndsStep

-- What was written is on its way.
abbrev pub parcels : Parcel → List Message → List Parcel
parcels p [] = []
parcels p (m ∷ ms) = p ∷ []

module _ (host : ReplyHost) where
  -- The branches EVENT_ADD_BUFFER and EVENT_REMOVE_BUFFER.
  abbrev pub receive_parcel : Parcel → Activity → Activity
  receive_parcel (add_parcel b) a = (add_received (set (some b)) a).0
  receive_parcel (remove_parcel id) a = (handle_reply host 0 (remove_buffer_head id) a []).0

  -- Without a connection nothing is read.
  abbrev pub read_first : Option ℕ → Parcel → List Parcel → Activity → List Parcel × Activity
  read_first none p ps a = (p ∷ ps, a)
  read_first (some fd) p ps a = (ps, receive_parcel p a)

  abbrev pub deliver_first : List Parcel → Activity → List Parcel × Activity
  deliver_first [] a = ([], a)
  deliver_first (p ∷ ps) a = read_first a.conn p ps a

  unfoldable pub ends_step : EndsStep → Ends → Ends
  unfolding register_buffer unregister_buffer handle_reply hang_up connect round
  ends_step (registering b) e =
      let (link, sent) = register_buffer e.link b.desc.id in
      record e { link = link; way = e.way ++ parcels (add_parcel b) sent }
  ends_step (unregistering id) e =
      let (link, sent) = unregister_buffer e.link id in
      record e { link = link; way = e.way ++ parcels (remove_parcel id) sent }
  ends_step delivering e =
      let (way, a) = deliver_first e.way e.activity in record e { way = way; activity = a }
  ends_step rounding e =
      let a = e.activity in
      record e { activity = record a { renderer = (round host.gl a.renderer).0 } }
  ends_step hanging e = record e { activity = (hang_up host e.activity).0 }
  ends_step failing e = record e { link = handle_error e.link }
  ends_step (connecting fd) e = record {
    link = add_fd e.link fd;
    way = [];
    activity = (connect host (some fd) e.activity).0;
  }

  unfoldable pub ends_run : List EndsStep → Ends → Ends
  unfolding ends_step
  ends_run [] e = e
  ends_run (p ∷ ps) e = ends_run ps (ends_step p e)

  -- What is received gets a block of calloc, so its address is not in a list.
  abbrev pub IsNewFirst : List Parcel → Renderer → Type 0
  IsNewFirst [] r = Unit
  IsNewFirst (add_parcel b ∷ ps) r = held b.address r ≡ 0
  IsNewFirst (remove_parcel id ∷ ps) r = Unit

  -- The buffer is received with one reference; both ends have seen the end of the connection before when
  -- they get a new one.
  abbrev pub IsFit : EndsStep → Ends → Type 0
  IsFit (registering b) e = IsSingle b
  IsFit (unregistering id) e = Unit
  IsFit delivering e = IsNewFirst e.way e.activity.renderer
  IsFit rounding e = Unit
  IsFit hanging e = Unit
  IsFit failing e = Unit
  IsFit (connecting fd) e = (e.link.conn ≡ none) × (e.activity.conn ≡ none)

  abbrev pub AreFit : List EndsStep → Ends → Type 0
  AreFit [] e = Unit
  AreFit (p ∷ ps) e = IsFit p e × AreFit ps (ends_step p e)
