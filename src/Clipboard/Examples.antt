-- ===== src/Clipboard/Examples.antt =====
-- Runs of the clipboard of app/src/main/cpp/lorie/clipboard.c, and the properties at concrete requests.
use termux_x11_extra.Base.{
  ℕ, ◌≡◌, ◌≢◌, refl, true, List, [], ◌∷◌, ◌++◌, none, some, ◌==◌, if◌then◌else◌, arith, All,
}
use termux_x11_extra.Text.{Bytes, utf8_to_latin1, convert_lf, latin1_to_utf8, utf8_to_ucs4}
use termux_x11_extra.Clipboard.{
  Atoms, bytes, Selection, Lookup, refused, found, DataTarget, selection_request, selection_clear,
  notify, property_put, data_sent, data_requested, passed_on, XServer, Clipboard, bad_match,
}
use termux_x11_extra.Clipboard.Receive.{request_selection, handle_selection, send_event}
use termux_x11_extra.Clipboard.Convert.{proc_convert_selection, handle_data}
use termux_x11_extra.Clipboard.Own.{handle_announce}
use termux_x11_extra.Clipboard.Answers.{Yields, IsRefusing, IsServed}
use termux_x11_extra.Clipboard.Delivery.{IsDelivered, handle_data-IsDelivered}
use termux_x11_extra.Clipboard.Fresh.{GivesNone, proc_convert_selection-handle_announce}
use termux_x11_extra.Clipboard.Exchange.{ComesBack, handle_selection-reply_data}

abbrev atom_table : Atoms
atom_table = record {
  timestamp = 101;
  text = 102;
  clipboard = 103;
  targets = 104;
  string = 31;
  utf8_string = 106;
}

abbrev find_front : List Selection → Lookup
find_front [] = refused bad_match
find_front (s ∷ selections) = found [] s selections

-- "a\r\n" and e acute
abbrev latin_text : Bytes
latin_text = 97 ∷ 13 ∷ 10 ∷ 233 ∷ []

-- An X server with the root 1 and the window 7 of client 5; a property STRING with the text.
abbrev x_server : XServer
x_server = record {
  root = 1;
  server_client = 0;
  current_time = 50;
  atoms = atom_table;
  find_selection = λ selections client atom. find_front selections;
  find_property = λ atom.
      if atom == 31
      then some
          (record { type = 31; format = 8; size = 4; atoms = []; bytes = latin_text ++ 0 ∷ [] })
      else some (record { type = 4; format = 32; size = 2; atoms = 31 ∷ 106 ∷ []; bytes = [] });
  find_window = λ client window. if window == 7 then 0 else 3;
  change_property = λ window property type content. 0;
  is_valid_atom = λ atom. true;
  allocated = true;
  copied = true;
  selection_allocated = true;
  may_create = λ atom. 0;
}

-- The selection of client 6, and the clipboard with the data "b".
abbrev foreign : Clipboard
foreign = record {
  enabled = true;
  cached = some (98 ∷ 0 ∷ []);
  pending = [];
  selections = record { atom = 103; client = some 6; window = 8; last_changed = 20 } ∷ [];
}

abbrev request : ℕ → ℕ → DataTarget
request target property = record {
  client = 5;
  selection = 103;
  target = target;
  property = property;
  requestor = 7;
  time = 60;
}

-- The server takes the selection.
announced : handle_announce x_server foreign ≡ (
  record {
    enabled = true;
    cached = none;
    pending = [];
    selections = record { atom = 103; client = some 0; window = 1; last_changed = 50 } ∷ [];
  },
  selection_clear 6 8 103 ∷ selection_request (some 0) 1 103 104 ∷ [],
)
unfolding handle_announce
announced = refl

abbrev owned : Clipboard
unfolding handle_announce
owned = (handle_announce x_server foreign).0

-- A request for the text is queued, and answered when the data comes.
queued :
    proc_convert_selection x_server 0 owned (request 106 9)
    ≡ some (record {
      rc = 0;
      clipboard = record owned { pending = request 106 9 ∷ [] };
      effects = data_requested ∷ [];
    })
unfolding proc_convert_selection handle_announce
queued = refl

abbrev waiting : Clipboard
waiting = record {
  enabled = true;
  cached = none;
  pending = request 106 9 ∷ request 31 0 ∷ [];
  selections = record { atom = 103; client = some 0; window = 1; last_changed = 50 } ∷ [];
}

-- The text "é". The client that names no property finds the text under its target, and the event names
-- None.
delivered :
    handle_data x_server waiting (some (195 ∷ 169 ∷ 0 ∷ []))
    ≡ some (
      record waiting { cached = some (195 ∷ 169 ∷ 0 ∷ []); pending = [] },
      property_put 7 9 106 (bytes (195 ∷ 169 ∷ []))
          ∷ notify (request 106 9)
          ∷ property_put 7 31 31 (bytes (233 ∷ []))
          ∷ notify (request 31 0)
          ∷ [],
    )
unfolding handle_data utf8_to_ucs4
delivered = refl

-- The owner names its targets: the text is asked for in UTF-8.
targets_seen :
    handle_selection x_server foreign 104 ≡ some (selection_request (some 6) 8 103 106 ∷ [])
unfolding handle_selection request_selection
targets_seen = refl

text_seen :
    send_event x_server foreign
      (record { is_notify = true; requestor = 1; selection = 103; target = 31; property = 31 })
    ≡ some (data_sent (97 ∷ 10 ∷ 195 ∷ 169 ∷ []) ∷ passed_on ∷ [])
unfolding send_event latin1_to_utf8 convert_lf
text_seen = refl

refusing-front :
    (selections : List Selection) (rc : ℕ) → find_front selections ≡ refused rc → rc ≢ 0
refusing-front [] rc is e = ground (arith, is, e)
refusing-front (s ∷ selections) rc is e = cc

x_server-IsRefusing : IsRefusing x_server
x_server-IsRefusing selections client atom rc is = refusing-front selections rc is

handle_data-IsDelivered_example :
    Yields
      (IsDelivered waiting (195 ∷ 169 ∷ 0 ∷ []))
      (handle_data x_server waiting (some (195 ∷ 169 ∷ 0 ∷ [])))
unfolding utf8_to_latin1 utf8_to_ucs4
handle_data-IsDelivered_example =
    handle_data-IsDelivered x_server waiting (195 ∷ 169 ∷ 0 ∷ []) (233 ∷ []) x_server-IsRefusing
      refl

proc_convert_selection-handle_announce_example :
    let c' = (handle_announce x_server foreign).0 in
    Yields
      (λ h. IsServed c' (request 31 9) h × All GivesNone h.effects)
      (proc_convert_selection x_server 0 c' (request 31 9))
proc_convert_selection-handle_announce_example =
    proc_convert_selection-handle_announce x_server 0 foreign (request 31 9) x_server-IsRefusing

handle_selection-reply_data_example :
    ComesBack x_server latin_text (handle_selection x_server foreign 31)
handle_selection-reply_data_example =
    handle_selection-reply_data x_server foreign latin_text (0 ∷ []) refl (λ e. omega (arith, e))
      (
        (omega arith, omega arith),
        (
          (omega arith, omega arith),
          ((omega arith, omega arith), ((omega arith, omega arith), tt)),
        ),
      )
      (omega arith) refl
