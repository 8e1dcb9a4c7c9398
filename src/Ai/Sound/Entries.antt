-- ===== src/Ai/Sound/Entries.antt =====
-- The tools on transactions, budgets and memories (crates/ai/src/finance_tools.rs) add sound writes.
use mathlib.Core.Path.{subst}
use andy.Base.{
  ◌≡◌, refl, sym, ap, ◌∙◌, ◌⊎◌, map_some, false, if◌then◌else◌, inl, inr, true, not, ◌&&◌, Option,
  none, some, List, is_some, is_empty, trim, ℤ, Text, Option-cases, Bool-cases, arith,
}
use andy.Domain.{Category, WriteIntent}
use andy.Shared.Amounts.Bounds.{IsEntry}
use andy.Shared.ExpenseCategory.{coerce_expense_category}
use andy.Ai.Checked.{Checked, ◌>>=◌, each, Fine, holds, Fine-bind}
use andy.Ai.Context.{Libraries, FinanceToolContext}
use andy.Ai.Args.{
  LogExpenseArgs, LogIncomeArgs, TransferArgs, EditLastArgs, BudgetArgs, RememberArgs, ForgetArgs,
}
use andy.Ai.Fields.{amount, log_date, is_blank, clean_account, memory_kind, should_save_memory}
use andy.Ai.Fields.Laws.{amount-IsEntry, IsLogDate, log_date-IsLogDate}
use andy.Domain.Rows.{TransactionRow}
use andy.Ai.Targets.{TransactionTarget, target_of_row, last_buffered_transaction}
use andy.Ai.Sound.Turns.{last_buffered-same_turn}
use andy.Ai.Writes.{
  Step, log_expense, log_income, log_transfer, edit_target, fixed_category, push_edit,
  edit_category, note_or, edit_last, delete_last, set_budget, remove_budget, remember,
  forget_memory,
}
use andy.Ai.Sound.{Maybe, IsOpen, IsLast, IsSound, AddsOne, declined, unaimed}

pub each-IsEntry :
    (lib : Libraries) (raw : Option Text) → Fine (Maybe IsEntry) (each (amount lib) raw)
each-IsEntry lib none = holds tt
each-IsEntry lib (some raw) =
    Fine-bind IsEntry (Maybe IsEntry) (amount lib raw) _ (amount-IsEntry lib raw) λ c h. holds h

module _ (lib : Libraries) (ctx : FinanceToolContext) (ws : List WriteIntent) where
  -- The amount and then the date.
  pub entry_and_date :
      (raw : Text) (date : Option Text) (k : ℤ → ℤ → Checked Step)
      → ((c d : ℤ) → IsEntry c → IsLogDate lib ctx.today d → Fine (AddsOne lib ctx ws) (k c d))
      → Fine
          (AddsOne lib ctx ws)
          (amount lib raw >>= λ c. log_date lib date ctx.today >>= λ d. k c d)
  entry_and_date raw date k h =
      Fine-bind IsEntry (AddsOne lib ctx ws) (amount lib raw) _ (amount-IsEntry lib raw) λ c hc.
        Fine-bind (IsLogDate lib ctx.today) (AddsOne lib ctx ws) (log_date lib date ctx.today) _
          (log_date-IsLogDate lib date ctx.today) λ d hd. h c d hc hd

  pub log_expense-AddsOne :
      (args : LogExpenseArgs) → Fine (AddsOne lib ctx ws) (log_expense lib ctx ws args)
  unfolding log_expense
  log_expense-AddsOne args =
      entry_and_date args.amount args.date _
        λ c d hc hd. holds (inr (_, refl, (refl, hc, hd, refl), unaimed))

  pub log_income-AddsOne :
      (args : LogIncomeArgs) → Fine (AddsOne lib ctx ws) (log_income lib ctx ws args)
  unfolding log_income
  log_income-AddsOne args =
      entry_and_date args.amount args.date _
        λ c d hc hd. holds (inr (_, refl, (refl, hc, hd, refl), unaimed))

  pub log_transfer-AddsOne :
      (args : TransferArgs) → Fine (AddsOne lib ctx ws) (log_transfer lib ctx ws args)
  unfolding log_transfer
  log_transfer-AddsOne args =
      (let from = clean_account args.from_account in
        let to = clean_account args.to_account in
        entry_and_date args.amount args.date _ λ c d hc hd.
          elim (Bool-cases (not (is_some from) && not (is_some to))) [
            | inl e ↦ rw e (declined lib ctx ws _)
            | inr e ↦ rw e (holds (inr (_, refl, (refl, hc, hd, ground (arith, e)), unaimed)))
          ])

  -- Where the target of an edit stands.
  abbrev Stands : TransactionTarget → Type 0
  Stands target =
      ((target.same_turn ≡ true) × (last_buffered_transaction ws ≡ some target))
      ⊎ ((target.same_turn ≡ false)
          × (map_some target_of_row ctx.snapshot.last_transaction ≡ some target))

  row_target-same_turn :
      (last : Option TransactionRow) (target : TransactionTarget)
      → map_some target_of_row last ≡ some target
      → target.same_turn ≡ false
  row_target-same_turn none target e = cc
  row_target-same_turn (some last) target e = ground (arith, e)

  edit_target-Stands :
      (o : Option TransactionTarget) (target : TransactionTarget)
      → last_buffered_transaction ws ≡ o
      → edit_target lib ctx ws o ≡ some target
      → Stands target
  edit_target-Stands (some t) target b e = inl (last_buffered-same_turn ws target (b ∙ e), b ∙ e)
  edit_target-Stands none target b e =
      inr (row_target-same_turn ctx.snapshot.last_transaction target e, e)

  row_target-id :
      (last : Option TransactionRow) (target : TransactionTarget)
      → map_some target_of_row last ≡ some target
      → some target.id ≡ map_some (λ (t : TransactionRow). t.id) last
  row_target-id none target e = cc
  row_target-id (some last) target e = ground (arith, e)

  push_edit-AddsOne :
      (target : TransactionTarget) (cents : Option ℤ) (category : Option Category)
      (memo : Option Text)
      → Maybe IsEntry cents
      → Stands target
      → (is_some category ≡ true → IsOpen (some target))
      → Fine (AddsOne lib ctx ws) (push_edit lib ctx ws target cents category memo)
  push_edit-AddsOne target cents category memo h s open_to =
      elim (Bool-cases (not (is_some cents) && (not (is_some category) && not (is_some memo)))) [
        | inl e ↦ rw e (declined lib ctx ws _)
        | inr e ↦ rw e (holds (inr (_, refl, edited_soundly e s, edited_aim s)))
      ]
    where
      edited_soundly :
          not (is_some cents) && (not (is_some category) && not (is_some memo)) ≡ false
          → Stands target
          → IsSound lib ctx (
              WriteIntent.edit_last ctx.user_id
                (if not target.same_turn then some target.id else none)
                target.same_turn
                cents
                category
                memo)
      edited_soundly e (inl (turn, b)) =
          (refl, h, ground (arith, e), (λ f. absurd (cc (turn, f))), (λ f. absurd (cc (turn, f))))
      edited_soundly e (inr (turn, b)) = (
        refl,
        h,
        ground (arith, e),
        (λ f. rw turn (row_target-id ctx.snapshot.last_transaction target b, refl)),
        (λ f g. subst IsOpen (sym b) (open_to g)),
      )

      edited_aim :
          Stands target
          → target.same_turn ≡ true
          → (is_some (last_buffered_transaction ws) ≡ true)
            × (is_some category ≡ true → IsOpen (last_buffered_transaction ws))
      edited_aim (inl (turn, b)) a = (ap is_some b, λ g. subst IsOpen (sym b) (open_to g))
      edited_aim (inr (turn, b)) a = absurd (cc (turn, a))

  fixed_category-IsOpen :
      (target : TransactionTarget) → fixed_category lib ctx ws target ≡ none → IsOpen (some target)
  fixed_category-IsOpen target e = ground (arith, e)

  edit_category-AddsOne :
      (target : TransactionTarget) (cents : Option ℤ) (args : EditLastArgs) (category : Option Text)
      → Maybe IsEntry cents
      → Stands target
      → Fine (AddsOne lib ctx ws) (edit_category lib ctx ws target cents args category)
  edit_category-AddsOne target cents args none h k =
      push_edit-AddsOne target cents none args.note h k λ e. cc
  edit_category-AddsOne target cents args (some category) h k =
      (let named =
          coerce_expense_category (some category) (note_or lib ctx ws args.note target.note) in
        elim (Option-cases (fixed_category lib ctx ws target)) [
          | inr (reason, e) ↦ rw (e, edit_category) (declined lib ctx ws reason)
          | inl e ↦
              rw (e, edit_category)
                (push_edit-AddsOne target cents (some named) args.note h k
                  λ f. fixed_category-IsOpen target e)
        ])

  pub edit_last-AddsOne :
      (args : EditLastArgs) → Fine (AddsOne lib ctx ws) (edit_last lib ctx ws args)
  unfolding edit_last
  edit_last-AddsOne args =
      elim (Option-cases (edit_target lib ctx ws (last_buffered_transaction ws))) [
        | inl e ↦ rw (e, edit_last) (declined lib ctx ws _)
        | inr (target, e) ↦
            (let k = edit_target-Stands (last_buffered_transaction ws) target refl e in
              rw (e, edit_last)
                (Fine-bind (Maybe IsEntry) (AddsOne lib ctx ws) (each (amount lib) args.amount) _
                  (each-IsEntry lib args.amount)
                  λ cents h. edit_category-AddsOne target cents args args.category h k))
      ]

  id-IsLast :
      (last : TransactionRow)
      → ctx.snapshot.last_transaction ≡ some last
      → IsLast ctx (some last.id)
  id-IsLast last e = (ap (map_some (λ (t : TransactionRow). t.id)) (sym e), refl)

  pub delete_last-AddsOne : Fine (AddsOne lib ctx ws) (delete_last lib ctx ws)
  unfolding delete_last
  delete_last-AddsOne = elim (Option-cases (last_buffered_transaction ws)) [
    | inr (target, e) ↦
        simp (e, delete_last)
          (holds (inr (_, refl, (refl, λ f. absurd cc), λ a. (ap is_some e, λ f. absurd cc))))
    | inl e ↦ elim (Option-cases ctx.snapshot.last_transaction) [
      | inl f ↦ simp (e, f, delete_last) (declined lib ctx ws _)
      | inr (last, f) ↦
          simp (e, f, delete_last) (holds (inr (_, refl, (refl, λ g. id-IsLast last f), unaimed)))
    ]
  ]

  pub set_budget-AddsOne :
      (args : BudgetArgs) → Fine (AddsOne lib ctx ws) (set_budget lib ctx ws args)
  unfolding set_budget
  set_budget-AddsOne args = elim (Option-cases args.monthly_limit) [
    | inl e ↦ rw (e, set_budget) (declined lib ctx ws _)
    | inr (limit, e) ↦
        rw (e, set_budget)
          (Fine-bind IsEntry (AddsOne lib ctx ws) (amount lib limit) _ (amount-IsEntry lib limit)
            λ c h. holds (inr (_, refl, (refl, h), unaimed)))
  ]

  pub remove_budget-AddsOne :
      (args : BudgetArgs) → Fine (AddsOne lib ctx ws) (remove_budget lib ctx ws args)
  unfolding remove_budget
  remove_budget-AddsOne args = holds (inr (_, refl, refl, unaimed))

  pub remember-AddsOne :
      (args : RememberArgs) → Fine (AddsOne lib ctx ws) (remember lib ctx ws args)
  unfolding remember
  remember-AddsOne args = elim (Bool-cases (is_empty (trim args.fact))) [
    | inl e ↦ rw e (declined lib ctx ws _)
    | inr e ↦ elim (Bool-cases (should_save_memory (trim args.fact) (memory_kind args.kind))) [
      | inl f ↦ rw e (rw f (holds (inr (_, refl, (refl, f, e), unaimed))))
      | inr f ↦ rw e (rw f (declined lib ctx ws _))
    ]
  ]

  pub forget_memory-AddsOne :
      (args : ForgetArgs) → Fine (AddsOne lib ctx ws) (forget_memory lib ctx ws args)
  unfolding forget_memory
  forget_memory-AddsOne args = elim (Bool-cases (is_blank args.query)) [
    | inl e ↦ rw e (declined lib ctx ws _)
    | inr e ↦ rw e (holds (inr (_, refl, (refl, e), unaimed)))
  ]
