-- ===== src/Clipboard/Own.antt =====
-- lorieOwnSelection and lorieHandleClipboardAnnounce of app/src/main/cpp/lorie/clipboard.c: the server
-- takes the selection for the activity.
use termux_x11_extra.Base.{
  ℕ, Bool, true, List, [], ◌∷◌, ◌++◌, Option, none, some, ◌==◌, if◌then◌else◌,
}
use termux_x11_extra.Clipboard.{
  Selection, Lookup, refused, found, Effect, selection_clear, XServer, Clipboard, bad_match,
  bad_alloc,
}
use termux_x11_extra.Clipboard.Receive.{selection_changed}

-- The error, the selections and the events.
pub record Owned : Type 0 where
  pub rc : ℕ
  pub selections : List Selection
  pub effects : List Effect

abbrev pub owned_by_root : XServer → Selection → Selection
owned_by_root x s = record {
  atom = s.atom;
  client = some x.server_client;
  window = x.root;
  last_changed = x.current_time;
}

-- The event that tells the owner of before.
abbrev pub clear_owner : XServer → Selection → Option ℕ → List Effect
clear_owner x s none = []
clear_owner x s (some client) =
    if client == x.server_client then [] else selection_clear client s.window s.atom ∷ []

abbrev pub new_selection : ℕ → Selection
new_selection atom = record { atom = atom; client = none; window = 0; last_changed = 0 }

-- The branch of a selection that does not exist yet.
abbrev pub create_selection : XServer → List Selection → ℕ → Owned
create_selection x selections atom =
    let rc = x.may_create atom in
    if x.selection_allocated
    then if rc == 0
      then record {
        rc = 0;
        selections = owned_by_root x (new_selection atom) ∷ selections;
        effects = [];
      }
      else record { rc = rc; selections = selections; effects = [] }
    else record { rc = bad_alloc; selections = selections; effects = [] }

abbrev pub own_found : XServer → List Selection → ℕ → Lookup → Owned
own_found x selections atom (found before s behind) = record {
  rc = 0;
  selections = before ++ owned_by_root x s ∷ behind;
  effects = clear_owner x s s.client;
}
own_found x selections atom (refused rc) =
    if rc == bad_match
    then create_selection x selections atom
    else record { rc = rc; selections = selections; effects = [] }

-- lorieOwnSelection up to the call of the callbacks.
unfoldable pub own_selection : XServer → List Selection → ℕ → Owned
own_selection x selections atom =
    own_found x selections atom (x.find_selection selections x.server_client atom)

-- lorieHandleClipboardAnnounce; of the callbacks of lorieOwnSelection the one that lorieInitClipboard
-- adds.
unfoldable pub handle_announce : XServer → Clipboard → Clipboard × List Effect
unfolding own_selection selection_changed
handle_announce x c =
    let atom = x.atoms.clipboard in
    let o = own_selection x c.selections atom in
    let c' = record c { cached = none; selections = o.selections } in
    (c', if o.rc == 0 then o.effects ++ selection_changed x c' atom true else o.effects)

-- lorieEnableClipboardSync
abbrev pub enable_clipboard_sync : Bool → Clipboard → Clipboard
enable_clipboard_sync enable c = record c { enabled = enable }
