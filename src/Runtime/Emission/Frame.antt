-- ===== src/Runtime/Emission/Frame.antt =====
-- What the emission of an event changes of the tables.
use ding.Base.{
  ℕ, ◌≡◌, refl, ap, ◌∙◌, String, List, [], ◌∷◌, ◌++◌, Option, none, some, ok, err, ◌>>=◌, leb,
}
use ding.Base.Ensures.{Ensures, Ensures-bind, Ensures-if, Ensures-then, Ensures-mono}
use ding.Watch.{Event}
use ding.Outbox.Operations.{enqueue}
use ding.Runtime.Tables.{
  Entry, emitted, Db, WatchRecord, Target, Checkpoint, append_event, save_replay, quota,
}
use ding.Runtime.Emission.{
  App, kind_name, contains_text, pending, draft, enqueued, notify_one, notify, append_and_notify,
  trimmed, append_evaluated,
}

module _ {F : Type 0} where
  -- Events, replays and the outbox at most.
  abbrev pub Quiet : Db F → Db F → Type 0
  Quiet d d' = d' ≡ record d { events = d'.events; replays = d'.replays; outbox = d'.outbox }

  pub Quiet-trans : (a b c : Db F) → Quiet a b → Quiet b c → Quiet a c
  Quiet-trans a b c p q =
      q
      ∙ ap {A = Db F} (λ x. record x { events = c.events; replays = c.replays; outbox = c.outbox })
          p

module _ {F : Type 0} (app : App F) (w : WatchRecord F) where
  -- Of an enqueued intent only the outbox is new.
  enqueued-Quiet :
      (e : Event F) (ref : String) (now : ℕ) (db : Db F) (d : String × String)
      → Ensures (Quiet db) (enqueued app w e ref now db d)
  unfolding enqueued
  enqueued-Quiet e ref now db (revision, type) = cases (app.render type e)
    where
      cases :
          (payload : Option String)
          → Ensures (Quiet db) (elim payload [
            | none ↦ err "render"
            | some text ↦
                enqueue db.outbox (draft app w e ref revision text now)
                >>= (λ r. ok record db { outbox = r.1 })
          ])
      cases none = tt
      cases (some text) =
          Ensures-then (Quiet db) (enqueue db.outbox (draft app w e ref revision text now))
            (λ r. ok record db { outbox = r.1 }) (λ r u. refl)

  destined-Quiet :
      (e : Event F) (t : Target) (now : ℕ) (db : Db F) (o : Option (String × String))
      → Ensures
          (Quiet db)
          (elim o [ none ↦ err "not found" | some d ↦ enqueued app w e t.ref now db d ])
  destined-Quiet e t now db none = tt
  destined-Quiet e t now db (some d) = enqueued-Quiet e t.ref now db d

  notify_one-Quiet :
      (e : Event F) (t : Target) (now : ℕ) (db : Db F)
      → Ensures (Quiet db) (notify_one app w e t now db)
  unfolding notify_one
  notify_one-Quiet e t now db =
      Ensures-if (Quiet db) (contains_text t.kinds (kind_name e.kind)) _ (ok db)
        (λ p.
          Ensures-if (Quiet db) (leb app.max_pending (pending db.outbox)) (err quota) _ (λ q. tt)
            (λ q. destined-Quiet e t now db (app.destination t.ref)))
        (λ p. refl)

  notify-Quiet :
      (e : Event F) (ts : List Target) (now : ℕ) (db : Db F)
      → Ensures (Quiet db) (notify app w e ts now db)
  unfolding notify
  notify-Quiet e [] now db = refl
  notify-Quiet e (t ∷ ts) now db =
      Ensures-bind (Quiet db) (Quiet db) (notify_one app w e t now db) (notify app w e ts now)
        (notify_one-Quiet e t now db)
        (λ d q.
          Ensures-mono (Quiet d) (Quiet db) _ (λ d' p. Quiet-trans db d d' q p)
            (notify-Quiet e ts now d))

  pub append_event-Quiet : (e : Entry F) (db : Db F) → Ensures (Quiet db) (append_event e db)
  unfolding append_event
  append_event-Quiet e db =
      Ensures-if (Quiet db) _ (err "constraint failed")
        (ok record db { events = db.events ++ (e ∷ []) }) (λ q. tt) (λ q. refl)

  save_replay-Quiet :
      (id : String) (c : Checkpoint F) (db : Db F) → Ensures (Quiet db) (save_replay id c db)
  unfolding save_replay
  save_replay-Quiet id c db =
      Ensures-if (Quiet db) _ (err "constraint failed")
        (ok record db { replays = db.replays ++ ((id, c) ∷ []) }) (λ q. tt) (λ q. refl)

  pub append_evaluated-Quiet :
      (e : Event F) (now : ℕ) (c : Checkpoint F) (db : Db F)
      → Ensures (Quiet db) (append_evaluated app w e now c db)
  unfolding append_evaluated append_and_notify
  append_evaluated-Quiet e now c db =
      Ensures-bind (Quiet db) (Quiet db) (append_and_notify app w e now db)
        (save_replay e.id (trimmed app w e now c))
        (Ensures-bind (Quiet db) (Quiet db) (append_event (emitted e) db)
          (notify app w e w.plan.targets now) (append_event-Quiet (emitted e) db)
          (λ d q.
            Ensures-mono (Quiet d) (Quiet db) _ (λ d' p. Quiet-trans db d d' q p)
              (notify-Quiet e w.plan.targets now d)))
        (λ d q.
          Ensures-mono (Quiet d) (Quiet db) _ (λ d' p. Quiet-trans db d d' q p)
            (save_replay-Quiet e.id (trimmed app w e now c) d))
