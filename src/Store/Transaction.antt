-- ===== src/Store/Transaction.antt =====
-- The two ways a transaction ends (`WithTx`, internal/store/sqlite/db.go).
use agent_chat.Prelude.{◌≡◌}
use agent_chat.Errcode.{Code}
use agent_chat.Errcode.Result.{Result, ok, err, AllOk}
use agent_chat.Store.{Db, with_tx, settle}

module _ {A : Type 0} (f : Db → Result (A × Db)) (db : Db) where
  pub commit : (a : A) (db' : Db) → f db ≡ ok (a, db') → with_tx f db ≡ (ok a, db')
  unfolding with_tx
  commit a db' e = rw (e, with_tx)

  pub rollback : (c : Code) → f db ≡ err c → with_tx f db ≡ (err c, db)
  unfolding with_tx
  rollback c e = rw (e, with_tx)

  settled :
      (Q : Db → Type 0) (r : Result (A × Db))
      → Q db
      → AllOk (λ (x : A × Db). Q x.1) r
      → Q (settle db r).1
  settled Q (ok (a, db')) before after = after
  settled Q (err c) before after = before

  -- What holds of the tables before, and of those that a success leaves, holds afterwards.
  pub kept : (Q : Db → Type 0) → Q db → AllOk (λ (r : A × Db). Q r.1) (f db) → Q (with_tx f db).1
  unfolding with_tx
  kept Q before after = settled Q (f db) before after
