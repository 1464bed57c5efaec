-- ===== src/Activity/Overread.antt =====
-- EVENT_CLIPBOARD_SEND in xcallback of app/src/main/cpp/lorie/activity.c: a byte more is read than was
-- sent.
use native.Mathlib.Nat.{mod-eq_of_lt}
use mathlib.Core.List.{append_assoc}
use termux_x11_extra.Base.{
  ℕ, zero, suc, ◌^◌, ◌<◌, ◌≡◌, refl, sym, ap, ◌∙◌, List, [], ◌∷◌, ◌++◌, some, false, arith, ltb,
  ◌==◌, ==_refl, ==-false, if-false, if◌then◌else◌, length, map, drop, All,
}
use termux_x11_extra.Text.{Bytes, c_string}
use termux_x11_extra.Activity.Serve.{read_filled}
use termux_x11_extra.Activity.Receive.{
  Cell, byte, ReplyHeader, clipboard_data_head, ReplyAbi, ReplyHost, Activity, Notice,
  set_clipboard_text, read_bytes, read_clipboard, head_cells, handle_reply, unread, read_replies,
  take_input, xcallback, reply_cells, sending_clipboard,
}

-- A read of bytes that are there.
pub read_bytes-append :
    (bs : Bytes) (s : List Cell) (n : ℕ) → n ≡ length bs → read_bytes n (map byte bs ++ s) ≡ (bs, s)
read_bytes-append [] s zero e = refl
read_bytes-append [] s (suc n) e = absurd (omega arith)
read_bytes-append (b ∷ bs) s zero e = absurd (omega arith)
read_bytes-append (b ∷ bs) s (suc n) e = rw (read_bytes-append bs s n (omega arith)) refl

pub unread-bytes : (abi : ReplyAbi) (bs : Bytes) → unread abi (map byte bs) ≡ length bs
unread-bytes abi [] = refl
unread-bytes abi (b ∷ bs) = omega (arith, unread-bytes abi bs)

read_over :
    (text : Bytes) (b : ℕ) (s : List Cell)
    → read_bytes (suc (length text)) (map byte text ++ byte b ∷ s) ≡ (text ++ b ∷ [], s)
read_over [] b s = refl
read_over (c ∷ text) b s = rw (read_over text b s) refl

filled_text :
    (text : Bytes) (b : ℕ)
    → All (λ c. 0 < c) text
    → c_string (read_filled (length text) (text ++ b ∷ []) ++ 0 ∷ []) ≡ text
filled_text [] b nonzero = refl
filled_text (c ∷ text) b (n, ns) = ground (arith, filled_text text b ns)

read_clipboard-over :
    (text : Bytes) (b : ℕ) (s : List Cell)
    → All (λ c. 0 < c) text
    → read_clipboard (length text) (map byte text ++ byte b ∷ s) ≡ (text, s)
read_clipboard-over text b s nonzero = rw (read_over text b s, filled_text text b nonzero) refl

-- A round that finds the whole struct of an event.
pub read_replies-head :
    (abi : ReplyAbi) (host : ReplyHost) (socket fuel : ℕ) (a : Activity) (h : ReplyHeader)
    (s : List Cell)
    → length (abi.encode h) ≡ abi.size
    → abi.decode (abi.encode h) ≡ some h
    → let (a', notices, left) = handle_reply host socket h a s in
      let (a'', more, rest) = read_replies abi host socket fuel a' left in
      read_replies abi host socket (suc fuel) a (head_cells abi h ++ s) ≡ (
        if ltb abi.size (unread abi left)
        then (a'', notices ++ more, rest)
        else (a', notices, left))
unfolding read_replies
read_replies-head abi host socket fuel a h s sized decoded =
    rw (read_bytes-append (abi.encode h) s abi.size (sym sized), sized, ==_refl abi.size, decoded)
      refl

read_bytes-short : (bs : Bytes) (n : ℕ) → length bs < n → read_bytes n (map byte bs) ≡ (bs, [])
read_bytes-short bs zero short = absurd (omega arith)
read_bytes-short [] (suc n) short = refl
read_bytes-short (b ∷ bs) (suc n) short = rw (read_bytes-short bs n (omega arith)) refl

-- What a call finds that is cut short is dropped.
read_replies-short :
    (abi : ReplyAbi) (host : ReplyHost) (socket fuel : ℕ) (a : Activity) (bs : Bytes)
    → length bs < abi.size
    → read_replies abi host socket (suc fuel) a (map byte bs) ≡ (a, [], [])
unfolding read_replies
read_replies-short abi host socket fuel a bs short =
    rw (read_bytes-short bs abi.size short, ==-false (length bs) abi.size (λ e. omega (arith, e)))
      (if-false (ltb abi.size 0) _ _ (ground arith))

handle_reply-over :
    (host : ReplyHost) (socket : ℕ) (a : Activity) (text : Bytes) (b : ℕ) (s : List Cell)
    → All (λ c. 0 < c) text
    → 0 < length text
    → handle_reply host socket (clipboard_data_head (length text)) a (map byte text ++ byte b ∷ s)
      ≡ (a, set_clipboard_text text ∷ [], s)
unfolding handle_reply
handle_reply-over host socket a text b s nonzero some_ =
    if-false (length text == 0) _ _ (==-false (length text) 0 (λ e. omega (arith, e)))
    ∙ ap (λ (r : Bytes × List Cell). (a, set_clipboard_text r.0 ∷ [], r.1))
        (read_clipboard-over text b s nonzero)

-- The struct and the text are read, and a byte of what follows; the call ends as less than a struct
-- is left.
read_replies-over :
    (abi : ReplyAbi) (host : ReplyHost) (socket fuel : ℕ) (a : Activity) (text : Bytes) (b : ℕ)
    (bs : Bytes)
    → length (abi.encode (clipboard_data_head (length text))) ≡ abi.size
    → abi.decode (abi.encode (clipboard_data_head (length text)))
      ≡ some (clipboard_data_head (length text))
    → All (λ c. 0 < c) text
    → 0 < length text
    → length bs < abi.size
    → read_replies abi host socket (suc fuel) a (
        head_cells abi (clipboard_data_head (length text))
        ++ (map byte text ++ byte b ∷ map byte bs))
      ≡ (a, set_clipboard_text text ∷ [], map byte bs)
read_replies-over abi host socket fuel a text b bs sized decoded nonzero some_ short =
    let s = map byte text ++ byte b ∷ map byte bs in
    read_replies-head abi host socket fuel a (clipboard_data_head (length text)) s sized decoded
    ∙ rw (handle_reply-over host socket a text b (map byte bs) nonzero some_, unread-bytes abi bs)
        (if-false (ltb abi.size (length bs)) _ _ (ground arith))

drop-length : (e : Bytes) → 0 < length e → suc (length (drop 1 e)) ≡ length e
drop-length [] begun = absurd (omega arith)
drop-length (b ∷ e) begun = refl

-- The structs have the size, and are read as they were written; a count is a 32-bit number.
abbrev pub IsReplyAbi : ReplyAbi → Type 0
IsReplyAbi abi =
    ((h : ReplyHeader) → length (abi.encode h) ≡ abi.size)
    × ((n : ℕ)
        → n < 2 ^ 32
        → abi.decode (abi.encode (clipboard_data_head n)) ≡ some (clipboard_data_head n))

pub xcallback-connected :
    (abi : ReplyAbi) (host : ReplyHost) (socket : ℕ) (a : Activity) (s : List Cell)
    → a.conn ≡ some socket
    → xcallback abi host false a s ≡ read_replies abi host socket (suc (length s)) a s
unfolding xcallback
xcallback-connected abi host socket a s connected = ap (λ o. take_input abi host o a s) connected

xcallback-over :
    (abi : ReplyAbi) (host : ReplyHost) (socket : ℕ) (a : Activity) (text : Bytes) (h : ReplyHeader)
    (e : Bytes)
    → IsReplyAbi abi
    → a.conn ≡ some socket
    → All (λ c. 0 < c) text
    → 0 < length text
    → length text < 2 ^ 32
    → abi.encode h ≡ e
    → 0 < length e
    → xcallback abi host false a
        (reply_cells abi socket (sending_clipboard text) ++ head_cells abi h)
      ≡ (a, set_clipboard_text text ∷ [], map byte (drop 1 e))
unfolding reply_cells
xcallback-over abi host socket a text h [] is connected nonzero some_ short whole begun =
    absurd (omega arith)
xcallback-over abi host socket a text h (b ∷ bs) (sized, decoded) connected nonzero some_ short
      whole begun =
    let n = length text in
    let less : length bs < abi.size = omega (arith, sized h, ap length whole) in
    rw
      (
        mod-eq_of_lt short,
        append_assoc (head_cells abi (clipboard_data_head n)) (map byte text) (head_cells abi h),
        whole,
      )
      (xcallback-connected abi host socket a _ connected
        ∙ read_replies-over abi host socket _ a text b bs (sized (clipboard_data_head n))
            (decoded n short) nonzero some_ less)

-- A text without a 0, shorter than 2^32 bytes and not empty, behind which the struct of any event
-- stands in the socket: a first call of xcallback gives the text to the clipboard, and a second drops
-- the rest of the struct. The event is lost.
pub xcallback-lost :
    (abi : ReplyAbi) (host : ReplyHost) (socket : ℕ) (a : Activity) (text : Bytes) (h : ReplyHeader)
    → IsReplyAbi abi
    → 0 < abi.size
    → a.conn ≡ some socket
    → All (λ c. 0 < c) text
    → 0 < length text
    → length text < 2 ^ 32
    → let (a1, first, left) =
        xcallback abi host false a
          (reply_cells abi socket (sending_clipboard text) ++ head_cells abi h) in
      let (a2, second, rest) = xcallback abi host false a1 left in
      (a1 ≡ a) × (first ≡ set_clipboard_text text ∷ []) × (a2 ≡ a) × (second ≡ []) × (rest ≡ [])
xcallback-lost abi host socket a text h is positive connected nonzero some_ short =
    let e = abi.encode h in
    let begun : 0 < length e = omega (arith, is.0 h) in
    let first =
      xcallback-over abi host socket a text h e is connected nonzero some_ short refl begun in
    let second =
      ap (λ (r : Activity × List Notice × List Cell). xcallback abi host false r.0 r.2) first
      ∙ xcallback-connected abi host socket a (map byte (drop 1 e)) connected
      ∙ read_replies-short abi host socket _ a (drop 1 e)
          (omega (arith, is.0 h, drop-length e begun)) in
    (
      ap (λ (r : Activity × List Notice × List Cell). r.0) first,
      ap (λ (r : Activity × List Notice × List Cell). r.1) first,
      ap (λ (r : Activity × List Notice × List Cell). r.0) second,
      ap (λ (r : Activity × List Notice × List Cell). r.1) second,
      ap (λ (r : Activity × List Notice × List Cell). r.2) second,
    )
