-- ===== src/Notes/Store.antt =====
-- packages/state/src/notes-store.ts, `createNotesStore`: reloads that overlap.
use opfs_webauthn.Prelude.{
  Bool, List, Text, [], false, if◌then◌else◌, not, ℕ, ◌+◌, ◌==◌, ◌||◌, ◌∷◌, ◌≡◌, ◌≤◌,
}

-- `Note` of packages/storage/src/repo.ts.
pub record Note : Type 0 where
  pub id : Text
  pub title : Text
  pub body : Text
  pub updated_day : ℕ
  pub archived : Bool

pub data NotesState : Type 0 where
  loading : NotesState
  ready : List Note → NotesState
  failed_with : Text → NotesState

-- A call of `reload` that waits for its notes: its generation, and the flag that it read.
pub record Load : Type 0 where
  pub generation : ℕ
  pub include_archived : Bool

pub data Loaded : Type 0 where
  notes : List Note → Loaded
  error_of : Text → Loaded

pub data StoreEvent : Type 0 where
  reloads : StoreEvent
  toggles : (show : Bool) → StoreEvent
  finishes : (generation : ℕ) → Loaded → StoreEvent

pub record NotesStore : Type 0 where
  pub state : NotesState
  pub generation : ℕ
  pub show_archived : Bool
  pub loads : List Load

-- `reload` up to its first `await`.
unfoldable pub start_reload : NotesStore → NotesStore
start_reload s = record s {
  generation = s.generation + 1;
  loads = record { generation = s.generation + 1; include_archived = s.show_archived } ∷ s.loads;
}

unfoldable pub set_show_archived : Bool → NotesStore → NotesStore
unfolding start_reload
set_show_archived show s =
    if (if show then s.show_archived else not s.show_archived)
    then s
    else start_reload (record s { show_archived = show })

abbrev pub in_flight_load : ℕ → List Load → Bool
in_flight_load gen [] = false
in_flight_load gen (l ∷ loads) = l.generation == gen || in_flight_load gen loads

abbrev pub without_load : ℕ → List Load → List Load
without_load gen [] = []
without_load gen (l ∷ loads) =
    let rest = without_load gen loads in if l.generation == gen then rest else l ∷ rest

abbrev pub state_of : Loaded → NotesState
state_of (notes ns) = ready ns
state_of (error_of e) = failed_with e

-- `reload` after its `await`: only the latest call may publish.
unfoldable pub finish_reload : ℕ → Loaded → NotesStore → NotesStore
finish_reload gen result s = if not (in_flight_load gen s.loads) then s else record s {
  state = if s.generation == gen then state_of result else s.state;
  loads = without_load gen s.loads;
}

unfoldable pub store_step : StoreEvent → NotesStore → NotesStore
unfolding start_reload set_show_archived finish_reload
store_step reloads s = start_reload s
store_step (toggles show) s = set_show_archived show s
store_step (finishes gen result) s = finish_reload gen result s

unfoldable pub store_run : List (StoreEvent) → NotesStore → NotesStore
unfolding store_step
store_run [] s = s
store_run (e ∷ es) s = store_run es (store_step e s)

-- A new store, which starts its first load.
unfoldable pub create_notes_store : NotesStore
unfolding start_reload
create_notes_store =
    start_reload (record { state = loading; generation = 0; show_archived = false; loads = [] })

-- A load was started no later than the last one, and the last one read the flag that is shown.
abbrev pub Current : NotesStore → Load → Type 0
Current s l =
    (l.generation ≤ s.generation)
    × (l.generation ≡ s.generation → l.include_archived ≡ s.show_archived)
