-- ===== src/Ai/Targets/Flushed.antt =====
-- The transaction that the tools see in the buffer (crates/ai/src/finance_tools.rs) is there for the
-- flush too, which remembers the one it inserted last (crates/db/src/writes.rs).
use mathlib.Core.List.{reverse, reverse-append}
use andy.Base.{
  ◌≡◌, refl, ap, ◌∙◌, Bool, true, false, Option, List, [], ◌∷◌, ◌++◌, is_some, arith, ℤ, Text,
}
use andy.Domain.{Uuid, NaiveDate, Category, TxKind, WriteIntent}
use andy.Db.Tables.{Engine, Database, Result, ok, err, Ensures}
use andy.Db.Transactions.{
  FlushState, apply_transaction, apply_goal_contribution, apply_delete_last, apply_edit_last,
}
use andy.Db.Flush.{Applied, apply_write_intent, go_on, go_on_with}
use andy.Ai.Targets.{Found, found_in, search_back, last_buffered_transaction}

-- Whether there is a transaction to aim at after one more write.
abbrev pub after : Found → Bool → Bool
after (Found.here target) before = true
after Found.deleted before = false
after Found.unrelated before = before

after_search :
    (f : Found) (w : WriteIntent) (ws : List WriteIntent)
    → found_in w ≡ f
    → is_some (search_back (w ∷ ws)) ≡ after f (is_some (search_back ws))
after_search (Found.here target) w ws e = rw (e, search_back) refl
after_search Found.deleted w ws e = rw (e, search_back) refl
after_search Found.unrelated w ws e = rw (e, search_back) refl

pub last_buffered-append :
    (ws : List WriteIntent) (w : WriteIntent)
    → is_some (last_buffered_transaction (ws ++ w ∷ []))
      ≡ after (found_in w) (is_some (last_buffered_transaction ws))
unfolding last_buffered_transaction
last_buffered-append ws w =
    ap (λ l. is_some (search_back l)) (reverse-append ws (w ∷ []))
    ∙ after_search (found_in w) w (reverse ws) refl

abbrev Inserted : Bool → FlushState × Database → Type 0
Inserted b r = is_some r.0.last_inserted_tx_id ≡ b

Ensures-eq {ℓ κ} :
    {A : Type ℓ} (P : A → Type κ) (m : Result A) → ((a : A) → m ≡ ok a → P a) → Ensures P m
Ensures-eq P (ok a) h = h a refl
Ensures-eq P (err e) h = tt

module _ (s : FlushState) (db : Database) where
  abbrev Leaves : Bool → Applied → Type 0
  Leaves b a = is_some a.state.last_inserted_tx_id ≡ b

  go_on-Leaves :
      (r : Result Database) → Ensures (Leaves (is_some s.last_inserted_tx_id)) (go_on s r)
  go_on-Leaves (ok db') = refl
  go_on-Leaves (err e) = tt

  go_on_with-Leaves :
      (b : Bool) (r : Result (FlushState × Database))
      → Ensures (Inserted b) r
      → Ensures (Leaves b) (go_on_with r)
  go_on_with-Leaves b (ok x) h = h
  go_on_with-Leaves b (err e) h = tt

  apply_transaction-Inserted :
      (pg : Engine) (kind : TxKind) (user : Uuid) (amount : ℤ) (category : Category)
      (memo : Option Text) (date : NaiveDate) (account : Option Text)
      → Ensures
          (Inserted true)
          (apply_transaction pg kind user amount category memo date account s db)
  unfolding apply_transaction
  apply_transaction-Inserted pg kind user amount category memo date account =
      Ensures-eq (Inserted true)
        (apply_transaction pg kind user amount category memo date account s db)
        λ r h. ground (arith, h)

  apply_goal_contribution-Inserted :
      (pg : Engine) (user goal : Uuid) (amount : ℤ) (date : NaiveDate)
      → Ensures (Inserted true) (apply_goal_contribution pg user goal amount date s db)
  unfolding apply_goal_contribution
  apply_goal_contribution-Inserted pg user goal amount date =
      Ensures-eq (Inserted true) (apply_goal_contribution pg user goal amount date s db)
        λ r h. ground (arith, h)

  -- The same-turn deletion forgets the transaction, and the other one leaves it.
  apply_delete_last-Inserted :
      (user : Uuid) (target : Option Uuid) (same : Bool)
      → Ensures
          (Inserted (
            after
              (found_in (WriteIntent.delete_last user target same))
              (is_some s.last_inserted_tx_id)))
          (apply_delete_last user target same s db)
  unfolding apply_delete_last found_in
  apply_delete_last-Inserted user target true =
      Ensures-eq _ (apply_delete_last user target true s db) λ r h. ground (arith, h)
  apply_delete_last-Inserted user target false =
      Ensures-eq _ (apply_delete_last user target false s db) λ r h. ground (arith, h)

  apply_edit_last-Inserted :
      (user : Uuid) (target : Option Uuid) (same : Bool) (amount : Option ℤ)
      (category : Option Category) (memo : Option Text)
      → Ensures
          (Inserted (is_some s.last_inserted_tx_id))
          (apply_edit_last user target same amount category memo s db)
  unfolding apply_edit_last
  apply_edit_last-Inserted user target same amount category memo =
      Ensures-eq (Inserted (is_some s.last_inserted_tx_id))
        (apply_edit_last user target same amount category memo s db) λ r h. ground (arith, h)

  -- Each intent moves the flush's memory as it moves the tools' view.
  pub apply_write_intent-Leaves :
      (pg : Engine) (w : WriteIntent)
      → Ensures
          (λ a.
            is_some a.state.last_inserted_tx_id
            ≡ after (found_in w) (is_some s.last_inserted_tx_id))
          (apply_write_intent pg w s db)
  unfolding apply_write_intent found_in
  apply_write_intent-Leaves pg (WriteIntent.transaction kind u amount category memo date account) =
      go_on_with-Leaves true _
        (apply_transaction-Inserted pg kind u amount category memo date account)
  apply_write_intent-Leaves pg (WriteIntent.goal_contribution u goal amount date) =
      go_on_with-Leaves true _ (apply_goal_contribution-Inserted pg u goal amount date)
  apply_write_intent-Leaves pg (WriteIntent.delete_last u target same) =
      go_on_with-Leaves _ _ (apply_delete_last-Inserted u target same)
  apply_write_intent-Leaves pg (WriteIntent.edit_last u target same amount category memo) =
      go_on_with-Leaves _ _ (apply_edit_last-Inserted u target same amount category memo)
  apply_write_intent-Leaves pg (WriteIntent.consume_confirmation u id) = refl
  apply_write_intent-Leaves pg (WriteIntent.create_goal u name target date) = go_on-Leaves _
  apply_write_intent-Leaves pg (WriteIntent.edit_goal u goal name target date) = go_on-Leaves _
  apply_write_intent-Leaves pg (WriteIntent.delete_goal u goal) = go_on-Leaves _
  apply_write_intent-Leaves pg (WriteIntent.set_budget u category limit) = go_on-Leaves _
  apply_write_intent-Leaves pg (WriteIntent.remove_budget u category) = go_on-Leaves _
  apply_write_intent-Leaves pg (WriteIntent.save_memory u content kind) = go_on-Leaves _
  apply_write_intent-Leaves pg (WriteIntent.forget_memory u query) = go_on-Leaves _
  apply_write_intent-Leaves pg (WriteIntent.save_turn u role content) = go_on-Leaves _
  apply_write_intent-Leaves pg (WriteIntent.outbound_reply u phone content key) = go_on-Leaves _
  apply_write_intent-Leaves pg (WriteIntent.add_recurring u recurring) = go_on-Leaves _
  apply_write_intent-Leaves pg (WriteIntent.remove_recurring u query) = go_on-Leaves _
  apply_write_intent-Leaves pg (WriteIntent.edit_recurring u query amount category every dom dow) =
      go_on-Leaves _
  apply_write_intent-Leaves pg (WriteIntent.transfer u amount from to memo date) = go_on-Leaves _
