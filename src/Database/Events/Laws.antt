-- ===== src/Database/Events/Laws.antt =====
-- About StoreWebhookEvents of internal/database/event.go.
use live_actions.Base.{
  ◌≡◌, refl, ◌⊎◌, inl, inr, String, Bool, true, false, List, [], ◌∷◌, string_eq,
}
use live_actions.Models.{OrderedEvent}
use live_actions.Failure.{Result, ok, err, IsErr}
use live_actions.Database.{Db, commit, end_tx, continue, call}
use live_actions.Database.Events.{put_event, insert_events, store_webhook_events}

abbrev pub put_all : List OrderedEvent → Db → Db
put_all [] db = db
put_all (event ∷ events) db = put_all events (put_event event db)

abbrev InsertEnds : List OrderedEvent → Db → Result (Unit {0}) × Db → Type 0
InsertEnds events db (r, db') = (db' ≡ record (put_all events db) { faults = db'.faults }) ⊎ IsErr r

insert_events-ends :
    (events : List OrderedEvent) (db : Db) (fs : List Bool)
    → InsertEnds events db (insert_events events (record db { faults = fs }))
unfolding insert_events call
insert_events-ends [] db fs = inl refl
insert_events-ends (event ∷ events) db [] = insert_events-ends events (put_event event db) []
insert_events-ends (event ∷ events) db (true ∷ fs) = inr tt
insert_events-ends (event ∷ events) db (false ∷ fs) =
    insert_events-ends events (put_event event db) fs

-- The batch is stored, event by event, or an error is returned and nothing is stored.
abbrev pub StoreEnds : List OrderedEvent → Db → Result (Unit {0}) × Db → Type 0
StoreEnds events db (r, db') =
    ((r ≡ ok tt) × (db' ≡ record (put_all events db) { faults = db'.faults }))
    ⊎ (IsErr r × (db' ≡ record db { faults = db'.faults }))

commit_ends :
    (message : String) (events : List OrderedEvent) (db : Db) (fs : List Bool)
    (out : Result (Unit {0}) × Db)
    → InsertEnds events db out
    → StoreEnds events db
        (end_tx message (record db { faults = fs }) (continue out (λ _ db'. (ok (commit tt), db'))))
unfolding call
commit_ends message events db fs (err e, db') w = inr (tt, refl)
commit_ends message events db fs (ok _, db') (inr x) = absurd x
commit_ends message events db fs (ok _, db') (inl q) = rw q (settled db'.faults)
  where
    settled :
        (gs : List Bool)
        → StoreEnds events db (
            end_tx message
              (record db { faults = fs })
              (ok (commit tt), record (put_all events db) { faults = gs }))
    settled [] = inl (refl, refl)
    settled (true ∷ gs) = inr (tt, refl)
    settled (false ∷ gs) = inl (refl, refl)

store_batch :
    (event : OrderedEvent) (events : List OrderedEvent) (db : Db) (fs : List Bool)
    → StoreEnds
        (event ∷ events)
        db
        (store_webhook_events (event ∷ events) (record db { faults = fs }))
unfolding store_webhook_events call
store_batch event events db [] =
    commit_ends "failed to commit batch insert" (event ∷ events) db []
      (insert_events (event ∷ events) (record db { faults = [] }))
      (insert_events-ends (event ∷ events) db [])
store_batch event events db (true ∷ fs) = inr (tt, refl)
store_batch event events db (false ∷ []) =
    commit_ends "failed to commit batch insert" (event ∷ events) db []
      (insert_events (event ∷ events) (record db { faults = [] }))
      (insert_events-ends (event ∷ events) db [])
store_batch event events db (false ∷ true ∷ fs) = inr (tt, refl)
store_batch event events db (false ∷ false ∷ fs) =
    commit_ends "failed to commit batch insert" (event ∷ events) db (false ∷ fs)
      (insert_events (event ∷ events) (record db { faults = fs }))
      (insert_events-ends (event ∷ events) db fs)

-- StoreWebhookEvents succeeds and has stored every event of the batch, or fails and has changed no
-- table.
pub store_webhook_events-atomic :
    (events : List OrderedEvent) (db : Db) → StoreEnds events db (store_webhook_events events db)
unfolding store_webhook_events
store_webhook_events-atomic [] db = inl (refl, refl)
store_webhook_events-atomic (event ∷ events) db = store_batch event events db db.faults
