-- ===== src/Notes/Latest.antt =====
-- packages/state/src/notes-store.ts: the last reload wins.
use opfs_webauthn.Notes.Store.{
  Current, Load, Loaded, Note, NotesStore, StoreEvent, create_notes_store, finish_reload, finishes,
  in_flight_load, notes, ready, reloads, set_show_archived, start_reload, store_run, store_step,
  toggles, without_load,
}
use opfs_webauthn.Prelude.{
  ==_iff, All, Bool, Bool-cases, List, [], ap, arith, if_false, if_true, if◌then◌else◌, inl, inr,
  not, refl, subst, sym, true, ℕ, ◌==◌, ◌∙◌, ◌∷◌, ◌≡◌, ◌≢◌,
}
use mathlib.Core.List.{Memᴰ}

start_reload-Current :
    (s : NotesStore)
    → All (Current s) s.loads
    → All (Current (start_reload s)) (start_reload s).loads
unfolding start_reload
start_reload-Current s a = ((omega arith, λ e. refl), older s.loads a)
  where
    older : (loads : List Load) → All (Current s) loads → All (Current (start_reload s)) loads
    older [] a = tt
    older (l ∷ loads) a =
        ((omega (arith, a.0.0), λ e. absurd (omega (arith, a.0.0))), older loads a.1)

set_show_archived-Current :
    (show : Bool) (s : NotesStore)
    → All (Current s) s.loads
    → All (Current (set_show_archived show s)) (set_show_archived show s).loads
unfolding set_show_archived start_reload
set_show_archived-Current show s a =
    elim (Bool-cases (if show then s.show_archived else not s.show_archived)) [
      | inl h ↦
          subst (λ u. All (Current u) u.loads)
            (sym (if_true (if show then s.show_archived else not s.show_archived) _ _ h)) a
      | inr h ↦
          subst (λ u. All (Current u) u.loads)
            (sym (if_false (if show then s.show_archived else not s.show_archived) _ _ h))
            ((omega arith, λ e. refl), older s.loads a)
    ]
  where
    shown : NotesStore
    shown = start_reload (record s { show_archived = show })

    older : (loads : List Load) → All (Current s) loads → All (Current shown) loads
    older [] a = tt
    older (l ∷ loads) a =
        ((omega (arith, a.0.0), λ e. absurd (omega (arith, a.0.0))), older loads a.1)

without_load-All :
    (P : Load → Type 0) (gen : ℕ) (loads : List Load) → All P loads → All P (without_load gen loads)
without_load-All P gen [] a = tt
without_load-All P gen (l ∷ loads) a = elim (Bool-cases (l.generation == gen)) [
  | inl h ↦
      subst (All P) (sym (if_true (l.generation == gen) _ _ h)) (without_load-All P gen loads a.1)
  | inr h ↦
      subst (All P) (sym (if_false (l.generation == gen) _ _ h))
        (a.0, without_load-All P gen loads a.1)
]

finish_reload-Current :
    (gen : ℕ) (result : Loaded) (s : NotesStore)
    → All (Current s) s.loads
    → All (Current (finish_reload gen result s)) (finish_reload gen result s).loads
unfolding finish_reload
finish_reload-Current gen result s a = elim (Bool-cases (in_flight_load gen s.loads)) [
  | inl h ↦ rw h (without_load-All (Current s) gen s.loads a)
  | inr h ↦ rw h a
]

store_run-Current :
    (es : List StoreEvent) (s : NotesStore)
    → All (Current s) s.loads
    → All (Current (store_run es s)) (store_run es s).loads
unfolding store_run store_step
store_run-Current [] s a = a
store_run-Current (reloads ∷ es) s a =
    store_run-Current es (start_reload s) (start_reload-Current s a)
store_run-Current (toggles show ∷ es) s a =
    store_run-Current es (set_show_archived show s) (set_show_archived-Current show s a)
store_run-Current (finishes gen result ∷ es) s a =
    store_run-Current es (finish_reload gen result s) (finish_reload-Current gen result s a)

-- Calls of `reload` that end late, and each of them once.
abbrev pub Late : ℕ → StoreEvent → Type 0
Late gen reloads = ⊥
Late gen (toggles show) = ⊥
Late gen (finishes g result) = g ≢ gen

finish_reload-late :
    (g : ℕ) (result : Loaded) (s : NotesStore)
    → g ≢ s.generation
    → let u = finish_reload g result s in
      (u.state ≡ s.state) × (u.show_archived ≡ s.show_archived) × (u.generation ≡ s.generation)
unfolding finish_reload
finish_reload-late g result s n = ground arith

finish_reload-latest :
    (g : ℕ) (ns : List Note) (s : NotesStore)
    → in_flight_load g s.loads ≡ true
    → g ≡ s.generation
    → let u = finish_reload g (notes ns) s in
      (u.state ≡ ready ns) × (u.show_archived ≡ s.show_archived) × (u.generation ≡ s.generation)
unfolding finish_reload
finish_reload-latest g ns s h e = ground (arith, ==_iff s.generation g)

store_run-Late :
    (es : List StoreEvent) (s : NotesStore)
    → All (Late s.generation) es
    → ((store_run es s).state ≡ s.state) × ((store_run es s).show_archived ≡ s.show_archived)
unfolding store_run store_step
store_run-Late [] s a = (refl, refl)
store_run-Late (reloads ∷ es) s a = absurd a.0
store_run-Late (toggles show ∷ es) s a = absurd a.0
store_run-Late (finishes g result ∷ es) s a =
    let (st, sh, gen) = finish_reload-late g result s a.0 in
    let (st', sh') =
      store_run-Late es (finish_reload g result s) (subst (λ n. All (Late n) es) (sym gen) a.1) in
    (st' ∙ st, sh' ∙ sh)

All-mem : (P : Load → Type 0) (l : Load) (loads : List Load) → Memᴰ l loads → All P loads → P l
All-mem P l [] m a = elim m [ ]
All-mem P l (k ∷ loads) (Memᴰ.head e) a = subst P (sym e) a.0
All-mem P l (k ∷ loads) (Memᴰ.tail m) a = All-mem P l loads m a.1

in_flight_load-mem :
    (l : Load) (loads : List Load) → Memᴰ l loads → in_flight_load l.generation loads ≡ true
in_flight_load-mem l [] m = elim m [ ]
in_flight_load-mem l (k ∷ loads) (Memᴰ.head e) =
    ground (arith, ap (λ x. x.generation) e, ==_iff k.generation l.generation)
in_flight_load-mem l (k ∷ loads) (Memᴰ.tail m) = ground (arith, in_flight_load-mem l loads m)

-- Whatever reloads, toggles of the archive and ends of loads came before: when the load of the last
-- `reload` ends with notes, the store shows them, they are those that the archive flag asks for, and
-- no earlier load that ends later replaces them.
pub store_run-latest :
    (es fs : List StoreEvent) (l : Load) (ns : List Note)
    → Memᴰ l (store_run es create_notes_store).loads
    → l.generation ≡ (store_run es create_notes_store).generation
    → All (Late l.generation) fs
    → let s = store_run es create_notes_store in
      let u = store_run fs (store_step (finishes l.generation (notes ns)) s) in
      (u.state ≡ ready ns) × (u.show_archived ≡ l.include_archived)
unfolding store_step create_notes_store start_reload
store_run-latest es fs l ns m g a =
    let s : NotesStore = store_run es create_notes_store in
    let done : NotesStore = finish_reload l.generation (notes ns) s in
    let fresh : All (Current s) s.loads =
      store_run-Current es create_notes_store ((omega arith, λ e. refl), tt) in
    let (st, sh, gen) = finish_reload-latest l.generation ns s (in_flight_load-mem l s.loads m) g in
    let (st', sh') = store_run-Late fs done (subst (λ n. All (Late n) fs) (g ∙ sym gen) a) in
    (st' ∙ st, sh' ∙ sh ∙ sym ((All-mem (Current s) l s.loads m fresh).1 g))
