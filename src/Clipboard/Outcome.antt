-- ===== src/Clipboard/Outcome.antt =====
-- What lorieProcConvertSelection of app/src/main/cpp/lorie/clipboard.c does with a request, and when.
use termux_x11_extra.Base.{ℕ, ◌≡◌, ◌≢◌, ◌⊎◌, true, List, [], ◌∷◌, some}
use termux_x11_extra.Clipboard.{
  Selection, Lookup, refused, found, DataTarget, passed_on, XServer, Clipboard, bad_atom,
}
use termux_x11_extra.Clipboard.Convert.{Handled}
use termux_x11_extra.Clipboard.Targets.{IsAnswer}

-- The selection is owned by the server itself, that is by the activity.
abbrev pub IsOwned : XServer → Selection → Type 0
IsOwned x s = (s.client ≡ some x.server_client) × (s.window ≡ x.root)

-- The selection is not there, or somebody else owns it.
abbrev pub IsForeign : XServer → Lookup → Type 0
IsForeign x (refused rc) = Unit
IsForeign x (found before s behind) = ¬ IsOwned x s

abbrev pub AreAtoms : XServer → DataTarget → Type 0
AreAtoms x t =
    (x.is_valid_atom t.selection ≡ true)
    × (x.is_valid_atom t.target ≡ true)
    × ((t.property ≡ 0) ⊎ (x.is_valid_atom t.property ≡ true))

-- The error of a requestor that is not there; BadAtom for an atom that is none; the X server's own
-- handler for a selection that is not the activity's; and the answer for one that is.
abbrev pub IsOutcome : XServer → ℕ → Clipboard → DataTarget → Handled → Type 0
IsOutcome x original c t h =
    let rc = x.find_window t.client t.requestor in
    let l = x.find_selection c.selections t.client t.selection in
    ((rc ≢ 0) × (h ≡ record { rc = rc; clipboard = c; effects = [] }))
    ⊎ (((rc ≡ 0) × (¬ AreAtoms x t) × (h ≡ record { rc = bad_atom; clipboard = c; effects = [] }))
        ⊎ (((rc ≡ 0)
              × AreAtoms x t
              × IsForeign x l
              × (h ≡ record { rc = original; clipboard = c; effects = passed_on ∷ [] }))
            ⊎ ((rc ≡ 0)
                × AreAtoms x t
                × ((before : List Selection) × (s : Selection) × (behind : List Selection) × (l
                      ≡ found before s behind)
                    × IsOwned x s
                    × (h.rc ≡ 0)
                    × (h.clipboard ≡ record c { pending = h.clipboard.pending })
                    × IsAnswer x s t c.cached c.pending (h.clipboard.pending, h.effects)))))
