-- ===== src/Storage/Connection/Live.antt =====
-- The handles of a database that are open after some events.
use vkr.Prelude.{
  ℕ, ◌≡◌, refl, Option, none, some, List, [], ◌∷◌, ◌++◌, ◌==◌, if◌then◌else◌, arith, inl, inr,
  Option-cases,
}
use vkr.Prelude.Result.{ok, err, Result-cases}
use vkr.Storage.Connection.{Driver, Event, opened_db, closed_db, Store, open_store, close_store}

unfoldable pub remove : ℕ → List ℕ → List ℕ
remove db [] = []
remove db (x ∷ xs) = let rest = remove db xs in if x == db then xs else x ∷ rest

-- The handles that are open after the events, of which `open_dbs` were open before.
unfoldable pub live : List Event → List ℕ → List ℕ
live [] open_dbs = open_dbs
live (opened_db db ∷ events) open_dbs = live events (db ∷ open_dbs)
live (closed_db db ∷ events) open_dbs = live events (remove db open_dbs)

pub live-append :
    (es ds : List Event) (open_dbs : List ℕ) → live (es ++ ds) open_dbs ≡ live ds (live es open_dbs)
unfolding live
live-append [] ds open_dbs = refl
live-append (opened_db db ∷ es) ds open_dbs = live-append es ds (db ∷ open_dbs)
live-append (closed_db db ∷ es) ds open_dbs = live-append es ds (remove db open_dbs)

pub remove_first : (db : ℕ) (dbs : List ℕ) → remove db (db ∷ dbs) ≡ dbs
unfolding remove
remove_first db dbs = ground arith

-- The handle of a store.
abbrev pub handle : Option Store → List ℕ
handle none = []
handle (some s) = elim s.db [ none ↦ [] | some db ↦ db ∷ [] ]

module _ (d : Driver) where
  -- `Open` leaves open the handle of the store that it returns, and nothing else.
  pub open_store-live :
      (attempt : ℕ) (dbs : List ℕ)
      → live (open_store d attempt).1 dbs
        ≡ (elim (open_store d attempt).0 [ ok s ↦ handle (some s) ++ dbs | err e ↦ dbs ])
  unfolding open_store live
  open_store-live attempt dbs = elim (Result-cases (d.sql_open attempt)) [
    | inr (msg, failed) ↦ rw (open_store, failed) refl
    | inl (db, got) ↦ elim (Option-cases (d.ping attempt db)) [
      | inl answers ↦ rw (open_store, got, answers) refl
      | inr (msg, silent) ↦ rw (open_store, got, silent) (remove_first db dbs)
    ]
  ]

  pub close_store-live :
      (s : Option Store) (dbs : List ℕ) → live (close_store d s).1 (handle s ++ dbs) ≡ dbs
  unfolding close_store live
  close_store-live none dbs = refl
  close_store-live (some s) dbs = elim (Option-cases s.db) [
    | inl nil ↦ rw nil refl
    | inr (db, has) ↦ rw has (remove_first db dbs)
  ]
