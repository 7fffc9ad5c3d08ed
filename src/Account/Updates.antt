-- ===== src/Account/Updates.antt =====
-- An update of an account: the plan, and what it writes.
use agent_chat.Prelude.{
  ◌≡◌, inl, inr, refl, sym, ap, ◌∙◌, Bool-cases, true, false, not, Option, none, some, List, [],
  ◌∷◌, ◌++◌, Str, str_eq, str_eq_refl, str_eq_sound, find, modify, any_found, find-passes,
  find-modify, find_unmodified, arith,
}
use mathlib.Core.Path.{ap₂}
use agent_chat.Errcode.{invalid_argument}
use agent_chat.Errcode.Result.{ok, require, or_not_found, then_ok}
use agent_chat.Store.{Db, Account, Role, admin, user, other_role, role_valid, lifecycle_valid}
use agent_chat.Store.Accounts
use agent_chat.Account.Records.{or_old, differing, asked, changes_of_lem, touched_lem}
use agent_chat.Account.{
  Draws, UpdateRequest, ChangeRecord, role_eq, name_change, role_change, changes_of, checked_name,
  checked_role, is_blank, touched_at, write_name, write_role, plan_update, apply_plan, update,
}

role_eq_sound : (r q : Role) → role_eq r q ≡ true → r ≡ q
unfolding role_eq
role_eq_sound admin admin h = refl
role_eq_sound user user h = refl
role_eq_sound (other_role s) (other_role t) h = ap other_role (str_eq_sound s t h)
role_eq_sound admin user h = cc
role_eq_sound admin (other_role t) h = cc
role_eq_sound user admin h = cc
role_eq_sound user (other_role t) h = cc
role_eq_sound (other_role s) admin h = cc
role_eq_sound (other_role s) user h = cc

write_name_lem :
    (a : Account) (o : Option Str) → write_name a o ≡ record a { name = or_old a.name o }
write_name_lem a none = refl
write_name_lem a (some n) = elim (Bool-cases (str_eq n a.name)) [
  | inl same ↦ rw same (ap (λ x. record a { name = x }) (sym (str_eq_sound n a.name same)))
  | inr other ↦ rw other refl
]

write_role_lem :
    (a : Account) (o : Option Role) → write_role a o ≡ record a { role = or_old a.role o }
write_role_lem a none = refl
write_role_lem a (some r) = elim (Bool-cases (role_eq r a.role)) [
  | inl same ↦ rw same (ap (λ x. record a { role = x }) (sym (role_eq_sound r a.role same)))
  | inr other ↦ rw other refl
]

-- The plan records no change only if it changes nothing.
name_unchanged : (a : Account) (o : Option Str) → name_change a o ≡ [] → or_old a.name o ≡ a.name
name_unchanged a none h = refl
name_unchanged a (some n) h = elim (Bool-cases (str_eq n a.name)) [
  | inl same ↦ str_eq_sound n a.name same
  | inr other ↦ ground (arith, other, h)
]

role_unchanged : (a : Account) (o : Option Role) → role_change a o ≡ [] → or_old a.role o ≡ a.role
role_unchanged a none h = refl
role_unchanged a (some r) h = elim (Bool-cases (role_eq r a.role)) [
  | inl same ↦ role_eq_sound r a.role same
  | inr other ↦ ground (arith, other, h)
]

both_empty : {A : Type 0} (xs ys : List A) → xs ++ ys ≡ [] → (xs ≡ []) × (ys ≡ [])
both_empty [] ys h = (refl, h)
both_empty (x ∷ xs) ys h = cc

-- The account after the request.
abbrev pub updated : Draws → Account → UpdateRequest → Account
updated d a req = record a {
  name = or_old a.name req.name;
  role = or_old a.role req.role;
  updated_at = touched_at d.now a (changes_of a req);
}

updated_lem : (d : Draws) (a : Account) (req : UpdateRequest) → updated d a req ≡ asked d.now a req
updated_lem d a req =
    ap
      (λ t. record a {
        name = or_old a.name req.name;
        role = or_old a.role req.role;
        updated_at = t;
      })
      (ap (touched_at d.now a) (changes_of_lem d.now a req) ∙ touched_lem d.now a _ _ _ _)

plan_update_lem :
    (d : Draws) (a : Account) (req : UpdateRequest)
    → is_blank req ≡ false
    → checked_name d.trim_space req.name ≡ ok tt
    → checked_role req.role ≡ ok tt
    → plan_update d a req ≡ ok (updated d a req, changes_of a req)
unfolding plan_update
plan_update_lem d a req blank named ranked =
    then_ok _ _ (ap (λ b. require (not b) invalid_argument) blank) (
      then_ok _ _ named (
        then_ok _ _ ranked (
          ap
            (λ (x : Account).
              ok
                (record x { updated_at = touched_at d.now a (changes_of a req) }, changes_of a req))
            (write_role_lem (write_name a req.name) req.role
              ∙ ap (λ (x : Account). record x { role = or_old x.role req.role })
                  (write_name_lem a req.name)))))

-- The row that the request is about, which may be written back with the new name and role.
pub record Updatable (d : Draws) (id : Str) (req : UpdateRequest) (db : Db) (a : Account)
    : Type 0 where
  pub found : find (Accounts.has_id id) db.accounts ≡ some a
  pub stored_role : role_valid a.role ≡ true
  pub stored_state : lifecycle_valid a.lifecycle_state ≡ true
  pub given : is_blank req ≡ false
  pub named : checked_name d.trim_space req.name ≡ ok tt
  pub ranked : checked_role req.role ≡ ok tt
  pub free : Accounts.name_taken (record a { name = or_old a.name req.name }) db ≡ false

role_stays_valid :
    (old : Role) (o : Option Role)
    → role_valid old ≡ true
    → checked_role o ≡ ok tt
    → role_valid (or_old old o) ≡ true
role_stays_valid old none h k = h
role_stays_valid old (some r) h k = elim (Bool-cases (role_valid r)) [
  | inl fine ↦ fine
  | inr bad ↦ ground (arith, bad, k)
]

module _ (d : Draws) (id : Str) (req : UpdateRequest) (db : Db) (a : Account)
    (h : Updatable d id req db a) where
  own_id : str_eq a.id id ≡ true
  own_id = find-passes (Accounts.has_id id) db.accounts a h.found

  abbrev written : List Account
  written = modify (Accounts.has_id a.id) (Accounts.overwrite (updated d a req)) db.accounts

  stored : Accounts.update (updated d a req) db ≡ ok (record db { accounts = written })
  unfolding Accounts.update
  stored =
      rw
        (
          role_stays_valid a.role req.role h.stored_role h.ranked,
          h.stored_state,
          h.free,
          any_found (Accounts.has_id id) (Accounts.has_id a.id) db.accounts a h.found
              (str_eq_refl a.id),
        )
        refl

  refound : find (Accounts.has_id id) written ≡ some (updated d a req)
  refound =
      find-modify (Accounts.has_id id) (Accounts.has_id a.id) (Accounts.overwrite (updated d a req))
        db.accounts (λ x k. refl)
      ∙ rw (h.found, str_eq_refl a.id) refl

  others :
      (other : Str)
      → str_eq id other ≡ false
      → find (Accounts.has_id other) written ≡ find (Accounts.has_id other) db.accounts
  others other apart =
      find_unmodified (Accounts.has_id other) (Accounts.has_id a.id)
        (Accounts.overwrite (updated d a req)) db.accounts (λ x k. not_other x k)
        (λ x k. not_other x k)
    where
      not_other : (x : Account) → str_eq x.id a.id ≡ true → str_eq x.id other ≡ false
      not_other x k =
          ap (λ i. str_eq i other) (str_eq_sound x.id a.id k ∙ str_eq_sound a.id id own_id) ∙ apart

  -- What `Update` leaves in the tables: the row with the id, and all else as it was.
  abbrev pub Updated : Account → Db → Type 0
  Updated new db' =
      (Accounts.get id db' ≡ ok new)
      × ((other : Str) → str_eq id other ≡ false → Accounts.get other db' ≡ Accounts.get other db)
      × (db' ≡ record db { accounts = db'.accounts })

  apply_lem :
      (changes : List ChangeRecord)
      → changes_of a req ≡ changes
      → (new : Account) × (db' : Db) × (apply_plan a (updated d a req, changes) db
          ≡ ok (new, changes, db'))
        × (new ≡ updated d a req)
        × Updated (updated d a req) db'
  unfolding apply_plan Accounts.get
  apply_lem [] none_made =
      let (n, r) = both_empty (name_change a req.name) (role_change a req.role) none_made in
      let same : a ≡ updated d a req = sym (
        ap₂
          (λ x y. record a {
            name = x;
            role = y;
            updated_at = touched_at d.now a (changes_of a req);
          })
          (name_unchanged a req.name n) (role_unchanged a req.role r)
        ∙ ap (λ cs. record a { updated_at = touched_at d.now a cs }) none_made) in
      (a, db, refl, same, (ap or_not_found (h.found ∙ ap some same), (λ other apart. refl), refl))
  apply_lem (c ∷ cs) made = (
    updated d a req,
    record db { accounts = written },
    then_ok _ _ stored refl,
    refl,
    (ap or_not_found refound, (λ other apart. ap or_not_found (others other apart)), refl),
  )

  planned :
      (new : Account) × (db' : Db) × (update d id req db ≡ ok (new, changes_of a req, db'))
      × (new ≡ updated d a req)
      × Updated (updated d a req) db'
  unfolding update Accounts.get
  planned =
      let (new, db', e, same, post) = apply_lem (changes_of a req) refl in
      (
        new,
        db',
        then_ok _ _ (ap or_not_found h.found)
            (then_ok _ _ (plan_update_lem d a req h.given h.named h.ranked) e),
        same,
        post,
      )

  -- A request with a field set whose name and role pass the checks, for an account whose row is
  -- valid, and whose name after the request no other account has: the update succeeds. What it
  -- returns and what is then stored is the row with the requested name and role, and a new time if
  -- the name or the role differs from before; there is one change record for each of the two that
  -- differs, with the value before and the value now; every other account and every other table is
  -- as before.
  pub update_lem :
      (new : Account) × (db' : Db) × (update d id req db ≡ ok (new, differing a new, db'))
      × (new ≡ asked d.now a req)
      × Updated new db'
  update_lem =
      let (new, db', e, same, (post, others_kept, tables_kept)) = planned in
      let right : new ≡ asked d.now a req = same ∙ updated_lem d a req in
      let records : changes_of a req ≡ differing a new =
        changes_of_lem d.now a req ∙ ap (differing a) (sym right) in
      (
        new,
        db',
        e ∙ ap (λ cs. ok (new, cs, db')) records,
        right,
        (post ∙ ap ok (sym same), others_kept, tables_kept),
      )
