-- ===== src/Clipboard.antt =====
-- The clipboard of the server, app/src/main/cpp/lorie/clipboard.c from line 184 on: the exchange of a
-- selection with the X clients. The conversions of the text are those of Text.
-- The selections, windows and properties are the X server's. `XServer` has what its functions return;
-- what the code makes it do is a list of effects. Atoms, windows and clients are numbers, None and
-- Success are 0.
pub mod Receive
pub mod Convert
pub mod Own
pub mod Answers
pub mod Targets
pub mod Outcome
pub mod Delivery
pub mod Fresh
pub mod Exchange
mod Examples
use termux_x11_extra.Base.{ℕ, Bool, List, [], ◌∷◌, Option}
use termux_x11_extra.Text.{Bytes}

-- xaTIMESTAMP and the others.
pub record Atoms : Type 0 where
  pub timestamp : ℕ
  pub text : ℕ
  pub clipboard : ℕ
  pub targets : ℕ
  pub string : ℕ
  pub utf8_string : ℕ

-- XA_ATOM, XA_INTEGER and XA_STRING of X11/Xatom.h
abbrev pub xa_atom : ℕ
xa_atom = 4

abbrev pub xa_integer : ℕ
xa_integer = 19

abbrev pub xa_string : ℕ
xa_string = 31

-- BadAtom, BadMatch and BadAlloc of X11/X.h
abbrev pub bad_atom : ℕ
bad_atom = 5

abbrev pub bad_match : ℕ
bad_match = 8

abbrev pub bad_alloc : ℕ
bad_alloc = 11

-- A property that is read: its data as numbers of 32 bits and as bytes, to the end of its block.
pub record Property : Type 0 where
  pub type : ℕ
  pub format : ℕ
  pub size : ℕ
  pub atoms : List ℕ
  pub bytes : Bytes

-- What is written to a property.
pub data Content : Type 0 where
  numbers : List ℕ → Content  -- 32
  bytes : Bytes → Content  -- 8

pub record Selection : Type 0 where
  pub atom : ℕ
  pub client : Option ℕ
  pub window : ℕ
  pub last_changed : ℕ

-- dixLookupSelection: an error, or the selection with those in front of it and behind it.
pub data Lookup : Type 0 where
  refused : ℕ → Lookup
  found : List Selection → Selection → List Selection → Lookup

-- LorieDataTarget
pub record DataTarget : Type 0 where
  pub client : ℕ
  pub selection : ℕ
  pub target : ℕ
  pub property : ℕ
  pub requestor : ℕ
  pub time : ℕ

-- Events to a client, properties, messages to the activity, and a request that goes on to the X server's
-- own handler.
pub data Effect : Type 0 where
  selection_request : Option ℕ → ℕ → ℕ → ℕ → Effect  -- client, owner, selection, target
  selection_clear : ℕ → ℕ → ℕ → Effect  -- client, window, selection
  notify : DataTarget → Effect
  property_put : ℕ → ℕ → ℕ → Content → Effect  -- window, property, type
  data_sent : Bytes → Effect
  data_requested : Effect
  passed_on : Effect

pub record XServer : Type 0 where
  pub root : ℕ
  pub server_client : ℕ
  pub current_time : ℕ
  pub atoms : Atoms
  pub find_selection : List Selection → ℕ → ℕ → Lookup  -- client, atom
  pub find_property : ℕ → Option Property
  pub find_window : ℕ → ℕ → ℕ  -- client, window
  pub change_property : ℕ → ℕ → ℕ → Content → ℕ
  pub is_valid_atom : ℕ → Bool
  pub allocated : Bool  -- calloc returns memory
  pub copied : Bool  -- strdup does
  pub selection_allocated : Bool
  pub may_create : ℕ → ℕ  -- XaceHookSelectionAccess

-- clipboardEnabled, cachedData, lorieDataTargetHead and CurrentSelections.
pub record Clipboard : Type 0 where
  pub enabled : Bool
  pub cached : Option Bytes
  pub pending : List DataTarget
  pub selections : List Selection
