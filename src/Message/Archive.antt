-- ===== src/Message/Archive.antt =====
-- A channel that was deleted on Discord: its room is archived once, whichever bots report it.
use agent_chat.Prelude.{
  any_found, find_unmodified, ◌≡◌, refl, ◌∙◌, ap, true, false, some, List, [], ◌∷◌, ◌++◌, Str,
  bytes, str_eq, str_eq_refl, str_eq_sound, is_empty, find, any, find-modify, modify, arith,
}
use agent_chat.Errcode.Result.{Result, ok, or_not_found}
use agent_chat.Store.{Db, AuditEntry, Room}
use agent_chat.Store.Transaction.{commit}
use agent_chat.Store.Rooms
use agent_chat.Store.Memberships
use agent_chat.Store.Audit
use agent_chat.Message.{
  Draws, account_ids, archived_at, archive_room, ingest_channel_deleted, if_catalogued,
}

module _ (d : Draws) (account_id channel_id : Str) (db : Db) (room : Room) where
  abbrev pub entry : Str → AuditEntry
  entry u = record {
    id = u;
    account_id = account_id;
    action = bytes "room.archive";
    target = room.id;
    payload = d.payload channel_id;
    created_at = d.audit_time;
  }

  abbrev after_archive : Str → Db
  after_archive u = record db {
    rooms =
        modify (Rooms.has_id room.id) (Rooms.overwrite (archived_at d.archive_time room)) db.rooms;
    audit_log = db.audit_log ++ entry u ∷ [];
  }

  recorded :
      (u : Str) (t : Db)
      → d.audit_uuid ≡ some u
      → any (λ (x : AuditEntry). str_eq x.id u) t.audit_log ≡ false
      → Audit.record_via d.audit_uuid d.audit_time account_id
          (bytes "room.archive")
          room.id
          (d.payload channel_id)
          t
        ≡ ok (record t { audit_log = t.audit_log ++ entry u ∷ [] })
  unfolding Audit.record_via Audit.record_entry
  recorded u t drawn fresh = rw (drawn, fresh)

  stored :
      find (Rooms.has_channel channel_id) db.rooms ≡ some room
      → Rooms.update (archived_at d.archive_time room) db
        ≡ ok (record db {
          rooms =
              modify
                (Rooms.has_id room.id)
                (Rooms.overwrite (archived_at d.archive_time room))
                db.rooms;
        })
  unfolding Rooms.update
  stored found = rw (
      any_found (Rooms.has_channel channel_id) (Rooms.has_id room.id) db.rooms room found
        (str_eq_refl room.id))

  archive_room_lem :
      (u : Str)
      → find (Rooms.has_channel channel_id) db.rooms ≡ some room
      → room.archived ≡ false
      → d.audit_uuid ≡ some u
      → any (λ (x : AuditEntry). str_eq x.id u) db.audit_log ≡ false
      → archive_room d account_id channel_id room db
        ≡ ok (account_ids (Memberships.list_by_room room.id db), after_archive u)
  unfolding archive_room Memberships.list_by_room
  archive_room_lem u found open_room drawn fresh = rw (
    open_room,
    stored found,
    recorded u
        (record db {
          rooms =
              modify (Rooms.has_id room.id) (Rooms.overwrite (archived_at d.archive_time room))
                db.rooms;
        })
        drawn fresh,
  )

  -- The channel still finds the room, which is archived.
  channel_kept :
      (u : Str)
      → find (Rooms.has_channel channel_id) db.rooms ≡ some room
      → find (Rooms.has_channel channel_id) (after_archive u).rooms
        ≡ some (Rooms.overwrite (archived_at d.archive_time room) room)
  channel_kept u found =
      find-modify (Rooms.has_channel channel_id) (Rooms.has_id room.id)
        (Rooms.overwrite (archived_at d.archive_time room)) db.rooms (λ x h. refl)
      ∙ rw (found, str_eq_refl)

  others_kept :
      (u id : Str)
      → str_eq room.id id ≡ false
      → find (Rooms.has_id id) (after_archive u).rooms ≡ find (Rooms.has_id id) db.rooms
  others_kept u id other =
      find_unmodified (Rooms.has_id id) (Rooms.has_id room.id)
        (Rooms.overwrite (archived_at d.archive_time room)) db.rooms
        (λ x same. ground (arith, other, ap (λ i. str_eq i id) (str_eq_sound x.id room.id same)))
        (λ x same. ground (arith, other, ap (λ i. str_eq i id) (str_eq_sound x.id room.id same)))

-- The report runs the body of the transaction on the room that it finds.
pub found_body :
    (f : Room → Db → Result (List Str × Db)) (channel_id : Str) (db : Db) (room : Room)
    → find (Rooms.has_channel channel_id) db.rooms ≡ some room
    → if_catalogued f (Rooms.get_by_discord_channel_id channel_id db) db ≡ f room db
unfolding Rooms.get_by_discord_channel_id
found_body f channel_id db room found = rw found

-- A repeated report finds the room archived and changes nothing.
archived_again :
    (d : Draws) (account_id channel_id : Str) (db : Db) (room : Room)
    → is_empty channel_id ≡ false
    → find (Rooms.has_channel channel_id) db.rooms ≡ some room
    → room.archived ≡ true
    → ingest_channel_deleted d account_id channel_id db ≡ (ok [], db)
unfolding ingest_channel_deleted archive_room
archived_again d account_id channel_id db room given found done = rw given (
    commit
      (λ t.
        if_catalogued (archive_room d account_id channel_id)
          (Rooms.get_by_discord_channel_id channel_id t) t)
      db [] db
      (found_body (archive_room d account_id channel_id) channel_id db room found ∙ rw done))

-- The first report of a deleted channel, by any account, archives its room: with a fresh audit id it
-- succeeds, names every member of the room for a notification, appends one audit entry, marks the
-- room archived, leaves every other room and every other table alone; and any further report of
-- the channel, by this or another account, then succeeds, notifies nobody and changes nothing.
pub ingest_channel_deleted_lem :
    (d : Draws) (account_id channel_id : Str) (db : Db) (room : Room) (u : Str)
    → is_empty channel_id ≡ false
    → find (Rooms.has_channel channel_id) db.rooms ≡ some room
    → room.archived ≡ false
    → d.audit_uuid ≡ some u
    → any (λ (x : AuditEntry). str_eq x.id u) db.audit_log ≡ false
    → (rooms : List Room) × (let db' = record db {
      rooms = rooms;
      audit_log = db.audit_log ++ entry d account_id channel_id db room u ∷ [];
    } in
        (ingest_channel_deleted d account_id channel_id db
          ≡ (ok (account_ids (Memberships.list_by_room room.id db)), db'))
        × (Rooms.get_by_discord_channel_id channel_id db'
            ≡ ok (record room { archived = true; updated_at = d.archive_time }))
        × ((id : Str) → str_eq room.id id ≡ false → Rooms.get id db' ≡ Rooms.get id db)
        × ((d2 : Draws) (other : Str)
            → ingest_channel_deleted d2 other channel_id db' ≡ (ok [], db')))
unfolding ingest_channel_deleted Rooms.get_by_discord_channel_id Rooms.get
ingest_channel_deleted_lem d account_id channel_id db room u given found open_room drawn fresh = (
  (after_archive d account_id channel_id db room u).rooms,
  (
    rw given (
        commit
          (λ t.
            if_catalogued (archive_room d account_id channel_id)
              (Rooms.get_by_discord_channel_id channel_id t) t)
          db (account_ids (Memberships.list_by_room room.id db))
          (after_archive d account_id channel_id db room u)
          (found_body (archive_room d account_id channel_id) channel_id db room found
            ∙ archive_room_lem d account_id channel_id db room u found open_room drawn fresh)),
    ap or_not_found (channel_kept d account_id channel_id db room u found),
    (λ id other. ap or_not_found (others_kept d account_id channel_id db room u id other)),
    (λ d2 other.
        archived_again d2 other channel_id (after_archive d account_id channel_id db room u)
          (Rooms.overwrite (archived_at d.archive_time room) room) given
          (channel_kept d account_id channel_id db room u found) refl),
  ),
)
