-- ===== src/Database/Events/Faults.antt =====
-- About StoreWebhookEvents of internal/database/event.go where no call of the driver fails.
use live_actions.Base.{◌≡◌, refl, subst, ◌∙◌, ap, [], ◌∷◌, List, inl, inr}
use live_actions.Models.{OrderedEvent}
use live_actions.Database.{Db, call, reliable, reliable-eq}
use live_actions.Database.Events.{put_event, insert_events, store_webhook_events}
use live_actions.Database.Events.Laws.{put_all, store_webhook_events-atomic}
use live_actions.Failure.{ok}

insert_events-ok :
    (events : List OrderedEvent) (db : Db)
    → insert_events events (reliable db) ≡ (ok tt, reliable (put_all events db))
unfolding insert_events call
insert_events-ok [] db = refl
insert_events-ok (event ∷ events) db = insert_events-ok events (put_event event db)

store_ok :
    (events : List OrderedEvent) (db : Db)
    → (store_webhook_events events (reliable db)).1.faults ≡ []
unfolding store_webhook_events call
store_ok [] db = refl
store_ok (event ∷ events) db = rw (insert_events-ok (event ∷ events) db) refl

pub faults-store_webhook_events :
    (events : List OrderedEvent) (db : Db)
    → db.faults ≡ []
    → (store_webhook_events events db).1.faults ≡ []
faults-store_webhook_events events db h =
    subst (λ d. (store_webhook_events events d).1.faults ≡ []) (reliable-eq db h)
      (store_ok events db)

put_all-jobs : (events : List OrderedEvent) (db : Db) → (put_all events db).jobs ≡ db.jobs
put_all-jobs [] db = refl
put_all-jobs (event ∷ events) db = put_all-jobs events (put_event event db)

pub store_webhook_events-jobs :
    (events : List OrderedEvent) (db : Db) → (store_webhook_events events db).1.jobs ≡ db.jobs
store_webhook_events-jobs events db = elim (store_webhook_events-atomic events db) [
  | inl w ↦ ap (λ (d : Db). d.jobs) w.1 ∙ put_all-jobs events db
  | inr f ↦ ap (λ (d : Db). d.jobs) f.1
]
