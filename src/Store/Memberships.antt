-- ===== src/Store/Memberships.antt =====
-- internal/store/sqlite/membership_repo.go
use agent_chat.Prelude.{
  none, some, Bool, not, ◌&&◌, List, [], ◌∷◌, ◌++◌, Str, str_eq, find, any, modify, keep, sort_by,
  leb, if◌then◌else◌,
}
use agent_chat.Errcode.{not_found, internal}
use agent_chat.Errcode.Result.{or_not_found, Result, ok, err}
use agent_chat.Store.{Db, Room, Account, Membership}

-- The primary key.
abbrev pub is_edge : Str → Str → Membership → Bool
is_edge account_id room_id m = str_eq m.account_id account_id && str_eq m.room_id room_id

-- Both foreign keys hold.
abbrev pub ends_exist : Membership → Db → Bool
ends_exist m db =
    any (λ (a : Account). str_eq a.id m.account_id) db.accounts
    && any (λ (r : Room). str_eq r.id m.room_id) db.rooms

abbrev pub with_subscribed : Bool → Membership → Membership
with_subscribed flag m = record m { subscribed = flag }

-- On a conflict only `subscribed` is written, and `joined_at` is kept.
unfoldable pub upsert : Membership → Db → Result Db
upsert m db =
    if any (is_edge m.account_id m.room_id) db.memberships
    then ok (record db {
      memberships =
          modify (is_edge m.account_id m.room_id) (with_subscribed m.subscribed) db.memberships;
    })
    else if ends_exist m db
    then ok (record db { memberships = db.memberships ++ m ∷ [] })
    else err internal

unfoldable pub get : Str → Str → Db → Result Membership
get account_id room_id db = or_not_found (find (is_edge account_id room_id) db.memberships)

abbrev pub joined_first : Membership → Membership → Bool
joined_first a b = leb a.joined_at b.joined_at

unfoldable pub list_by_room : Str → Db → List Membership
list_by_room room_id db = sort_by joined_first (keep (λ m. str_eq m.room_id room_id) db.memberships)

unfoldable pub list_by_account : Str → Db → List Membership
list_by_account account_id db =
    sort_by joined_first (keep (λ m. str_eq m.account_id account_id) db.memberships)

unfoldable pub list_subscribers : Str → Db → List Membership
list_subscribers room_id db =
    sort_by joined_first (keep (λ m. str_eq m.room_id room_id && m.subscribed) db.memberships)

unfoldable pub set_subscribed : Str → Str → Bool → Db → Result Db
set_subscribed account_id room_id flag db =
    if any (is_edge account_id room_id) db.memberships
    then ok (record db {
      memberships = modify (is_edge account_id room_id) (with_subscribed flag) db.memberships;
    })
    else err not_found

unfoldable pub delete : Str → Str → Db → Result Db
delete account_id room_id db =
    if any (is_edge account_id room_id) db.memberships
    then ok
        (record db { memberships = keep (λ m. not (is_edge account_id room_id m)) db.memberships })
    else err not_found

-- The join with the rooms, by their primary key.
abbrev pub with_room : List Room → List Membership → List (Membership × Room)
with_room rooms [] = []
with_room rooms (m ∷ ms) =
    let rest = with_room rooms ms in
    elim (find (λ (r : Room). str_eq r.id m.room_id) rooms) [ none ↦ rest | some r ↦ (m, r) ∷ rest ]

unfoldable pub list_by_account_with_rooms : Str → Db → List (Membership × Room)
list_by_account_with_rooms account_id db =
    with_room db.rooms
      (sort_by joined_first (keep (λ m. str_eq m.account_id account_id) db.memberships))
