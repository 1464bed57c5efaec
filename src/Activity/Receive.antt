-- ===== src/Activity/Receive.antt =====
-- The connection of the activity: xcallback, connect_ and connected of
-- app/src/main/cpp/lorie/activity.c, rendererSetSharedState of app/src/main/cpp/lorie/renderer.c, and what
-- the server writes for them in app/src/main/cpp/lorie/cmdentrypoint.c.
use termux_x11_extra.Base.{
  ℕ, zero, suc, ◌+◌, ◌%◌, ◌^◌, Bool, true, false, ◌||◌, List, [], ◌∷◌, ◌++◌, Option, none, some,
  ltb, ◌==◌, if◌then◌else◌, length, map,
}
use termux_x11_extra.Base.Int.{ℤ, pos, is_neg}
use termux_x11_extra.Text.{Bytes, c_string}
use termux_x11_extra.Buffer.{LorieBuffer}
use termux_x11_extra.Buffer.Receive.{
  Packet, passed_fd, Receiver, Output, kept, set, send, read_fd, receive,
}
use termux_x11_extra.Renderer.{Shared, Renderer, Gl, add_buffer, remove_buffer, remove_all, round}
use termux_x11_extra.Activity.Serve.{read_filled}

-- What stands in the socket: bytes, and the packets of a buffer or a descriptor.
pub data Cell : Type 0 where
  byte : ℕ → Cell
  packet : Packet → Cell

-- lorieEvent, as the server fills it.
pub data ReplyHeader : Type 0 where
  shared_state_head add_buffer_head clipboard_request_head focus_changed_head : ReplyHeader
  remove_buffer_head clipboard_data_head : ℕ → ReplyHeader  -- id, count

-- sizeof(lorieEvent), its bytes, and the event that bytes make, if it is one of these; how many bytes
-- FIONREAD counts for a packet.
pub record ReplyAbi : Type 0 where
  pub size : ℕ
  pub encode : ReplyHeader → Bytes
  pub decode : Bytes → Option ReplyHeader
  pub packet_size : Packet → ℕ

-- What the activity's Java code is told, and what is done to the system.
pub data Notice : Type 0 where
  client_connected_state_changed request_clipboard reset_ime : Notice
  set_clipboard_text : Bytes → Notice
  closed_socket : ℕ → Notice
  closed_fd : ℤ → Notice
  freed_buffers : List LorieBuffer → Notice
  used_freed : LorieBuffer → Notice  -- a buffer that the renderer does not have is put in its list

-- conn_fd, none for -1; the static `buffer` of EVENT_ADD_BUFFER; and the renderer.
pub record Activity : Type 0 where
  pub conn : Option ℕ
  pub buffer : Option LorieBuffer
  pub renderer : Renderer

-- mmap of the server state at a descriptor; NULL and MAP_FAILED are none.
pub record ReplyHost : Type 0 where
  pub receiver : Receiver
  pub map_state : ℤ → Option Shared
  pub gl : Gl

-- Calls of the server that write to the socket, with a connection.
pub data ServerReply : Type 0 where
  sending_clipboard : Bytes → ServerReply
  asking_clipboard : ServerReply
  sending_state : ℤ → ServerReply
  registering_buffer : LorieBuffer → ServerReply
  unregistering_buffer : ℕ → ServerReply
  notifying_focus : ServerReply

abbrev pub head_cells : ReplyAbi → ReplyHeader → List Cell
head_cells abi h = map byte (abi.encode h)

-- What they write.
unfoldable pub reply_cells : ReplyAbi → ℕ → ServerReply → List Cell
reply_cells abi socket (sending_clipboard text) =
    head_cells abi (clipboard_data_head (length text % 2 ^ 32)) ++ map byte text
reply_cells abi socket asking_clipboard = head_cells abi clipboard_request_head
reply_cells abi socket (sending_state memfd) =
    head_cells abi shared_state_head ++ packet (passed_fd memfd) ∷ []
reply_cells abi socket (registering_buffer b) =
    head_cells abi add_buffer_head ++ map packet (send (pos socket) b)
reply_cells abi socket (unregistering_buffer id) = head_cells abi (remove_buffer_head id)
reply_cells abi socket notifying_focus = head_cells abi focus_changed_head

-- A read of n bytes: what is read, and what is left.
abbrev pub read_bytes : ℕ → List Cell → Bytes × List Cell
read_bytes zero s = ([], s)
read_bytes (suc n) [] = ([], [])
read_bytes (suc n) (byte b ∷ s) = let (bs, left) = read_bytes n s in (b ∷ bs, left)
read_bytes (suc n) (packet p ∷ s) = ([], packet p ∷ s)

-- The packets in front.
abbrev pub read_packets : List Cell → List Packet × List Cell
read_packets [] = ([], [])
read_packets (byte b ∷ s) = ([], byte b ∷ s)
read_packets (packet p ∷ s) = let (ps, left) = read_packets s in (p ∷ ps, left)

abbrev pub has_address : ℕ → List LorieBuffer → Bool
has_address a [] = false
has_address a (b ∷ bs) = b.address == a || has_address a bs

-- rendererAddBuffer of the buffer of an earlier event, which is used after it was freed unless it is still
-- in a list.
abbrev pub move_buffer : LorieBuffer → Renderer → Renderer × List Notice
move_buffer b r = (
  add_buffer b r,
  if has_address b.address r.added
        || (has_address b.address r.buffers || has_address b.address r.removed)
      then []
      else used_freed b ∷ [],
)

-- rendererSetSharedState: it waits for the round of the renderer's thread.
unfoldable pub set_shared_state : Gl → Option Shared → Renderer → Renderer × List LorieBuffer
unfolding round
set_shared_state gl state r =
    let (r', shown, freed) = round gl (record r { pending_state = state; state_changed = true }) in
    (r', freed)

-- rendererSetSharedState(NULL) and rendererRemoveAllBuffers()
unfoldable pub forget_server : Gl → Renderer → Renderer × List Notice
unfolding set_shared_state remove_all
forget_server gl r =
    let (r1, freed) = set_shared_state gl none r in
    let (r2, more) = remove_all gl r1 in (r2, freed_buffers freed ∷ freed_buffers more ∷ [])

-- EVENT_ADD_BUFFER from the call of rendererAddBuffer on, for what was received.
abbrev pub add_received : Output → Activity → Activity × List Notice
add_received (set none) a = (record a { buffer = none }, [])
add_received (set (some b)) a =
    (record a { buffer = some b; renderer = add_buffer b a.renderer }, [])
add_received kept a = elim a.buffer [
  | none ↦ (a, [])
  | some b ↦ let (r, notices) = move_buffer b a.renderer in (record a { renderer = r }, notices)
]

-- EVENT_SHARED_SERVER_STATE, for the descriptor that was received.
abbrev pub take_state : ReplyHost → ℤ → Activity → Activity × List Notice
take_state host fd a =
    let (r, freed) = set_shared_state host.gl (host.map_state fd) a.renderer in
    if is_neg fd
    then (a, [])
    else (record a { renderer = r }, freed_buffers freed ∷ closed_fd fd ∷ [])

-- EVENT_CLIPBOARD_SEND: `count + 1` bytes are read.
abbrev pub read_clipboard : ℕ → List Cell → Bytes × List Cell
read_clipboard count s =
    let (bs, left) = read_bytes (suc count) s in (c_string (read_filled count bs ++ 0 ∷ []), left)

-- The switch of xcallback: the activity after it, what it tells, and what is left to read.
unfoldable pub handle_reply :
    ReplyHost → ℕ → ReplyHeader → Activity → List Cell → Activity × List Notice × List Cell
unfolding set_shared_state remove_buffer receive add_buffer
handle_reply host socket (clipboard_data_head count) a s =
    let (text, left) = read_clipboard count s in
    if count == 0 then (a, [], s) else (a, set_clipboard_text text ∷ [], left)
handle_reply host socket clipboard_request_head a s = (a, request_clipboard ∷ [], s)
handle_reply host socket shared_state_head a s =
    let (ps, left) = read_packets s in
    let (a', notices) = take_state host (read_fd host.receiver ps) a in (a', notices, left)
handle_reply host socket add_buffer_head a s =
    let (ps, left) = read_packets s in
    let (output, log) = receive host.receiver (pos socket) true ps in
    let (a', notices) = add_received output a in (a', notices, left)
handle_reply host socket (remove_buffer_head id) a s =
    let (r, freed) = remove_buffer host.gl id a.renderer in
    (record a { renderer = r }, freed_buffers freed ∷ [], s)
handle_reply host socket focus_changed_head a s = (a, reset_ime ∷ [], s)

-- An event of another type is passed over.
abbrev pub handle_decoded :
    ReplyHost → ℕ → Option ReplyHeader → Activity → List Cell → Activity × List Notice × List Cell
handle_decoded host socket none a s = (a, [], s)
handle_decoded host socket (some h) a s = handle_reply host socket h a s

-- What FIONREAD counts.
abbrev pub unread : ReplyAbi → List Cell → ℕ
unread abi [] = 0
unread abi (byte b ∷ s) = 1 + unread abi s
unread abi (packet p ∷ s) = abi.packet_size p + unread abi s

-- From `again` on, for `fuel` rounds.
unfoldable pub read_replies :
    ReplyAbi → ReplyHost → ℕ → ℕ → Activity → List Cell → Activity × List Notice × List Cell
unfolding handle_reply
read_replies abi host socket zero a s = (a, [], s)
read_replies abi host socket (suc fuel) a s =
    let (bs, left) = read_bytes abi.size s in
    let (a', notices, left') =
      if length bs == abi.size
      then handle_decoded host socket (abi.decode bs) a left
      else (a, [], left) in
    let (a'', more, rest) = read_replies abi host socket fuel a' left' in
    if ltb abi.size (unread abi left') then (a'', notices ++ more, rest) else (a', notices, left')

-- close(conn_fd)
abbrev pub close_conn : Option ℕ → List Notice
close_conn none = []
close_conn (some fd) = closed_socket fd ∷ []

-- The branch of xcallback for an error or a hangup.
unfoldable pub hang_up : ReplyHost → Activity → Activity × List Notice
unfolding forget_server
hang_up host a =
    let (r, notices) = forget_server host.gl a.renderer in
    (
      record a { conn = none; renderer = r },
      client_connected_state_changed ∷ (close_conn a.conn ++ notices),
    )

-- The branch of xcallback for input. A round finds a cell at least, so that the cells are rounds enough.
unfoldable pub take_input :
    ReplyAbi → ReplyHost → Option ℕ → Activity → List Cell → Activity × List Notice × List Cell
unfolding read_replies
take_input abi host none a s = (a, [], s)
take_input abi host (some socket) a s = read_replies abi host socket (suc (length s)) a s

-- xcallback
unfoldable pub xcallback :
    ReplyAbi → ReplyHost → Bool → Activity → List Cell → Activity × List Notice × List Cell
unfolding take_input hang_up
xcallback abi host failed a s =
    let (a', notices) = hang_up host a in
    if failed then (a', notices, s) else take_input abi host a.conn a s

-- connect_
unfoldable pub connect : ReplyHost → Option ℕ → Activity → Activity × List Notice
unfolding forget_server
connect host fd a = elim a.conn [
  | none ↦ (record a { conn = fd }, [])
  | some old ↦
      let (r, notices) = forget_server host.gl a.renderer in
      (record a { conn = fd; renderer = r }, closed_socket old ∷ notices)
]
