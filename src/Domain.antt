-- ===== src/Domain.antt =====
-- crates/shared/src/domain.rs and the enum of crates/shared/src/categories.rs: the vocabulary that
-- the agent, the policy and the database share. Constructors take the fields of the source's
-- variants in their order. A `Uuid` is an opaque identifier, a `NaiveDate` the number of its
-- days since 1970-01-01 and a `DateTime<Utc>` that of its microseconds.
pub mod Rows
use andy.Base.{ℕ, ◌≡◌, Bool, true, Option, List, [], ◌∷◌, ℤ, Text, codes, ◌==◌, arith}

abbrev pub Uuid : Type 0
Uuid = ℕ

abbrev pub NaiveDate : Type 0
NaiveDate = ℤ

abbrev pub Instant : Type 0
Instant = ℤ

pub data Category : Type 0 where
  food transport bills shopping health entertainment savings_goals income other : Category

pub data TxKind : Type 0 where
  income expense : TxKind

pub data Cadence : Type 0 where
  weekly monthly : Cadence

pub data MessageRole : Type 0 where
  user assistant : MessageRole

pub data MemoryKind : Type 0 where
  fact preference payday goal person other : MemoryKind

-- `Category::as_str`.
abbrev pub category_str : Category → Text
category_str Category.food = codes "Food"
category_str Category.transport = codes "Transport"
category_str Category.bills = codes "Bills"
category_str Category.shopping = codes "Shopping"
category_str Category.health = codes "Health"
category_str Category.entertainment = codes "Entertainment"
category_str Category.savings_goals = codes "Savings/Goals"
category_str Category.income = codes "Income"
category_str Category.other = codes "Other"

-- `Category::ALL`.
abbrev pub all_categories : List Category
all_categories =
    Category.food ∷ Category.transport ∷ Category.bills ∷ Category.shopping ∷ Category.health
    ∷ Category.entertainment ∷ Category.savings_goals ∷ Category.income ∷ Category.other ∷ []

-- `TxKind::as_db`.
abbrev pub tx_kind_db : TxKind → Text
tx_kind_db TxKind.income = codes "income"
tx_kind_db TxKind.expense = codes "expense"

-- `Cadence::as_db`.
abbrev pub cadence_db : Cadence → Text
cadence_db Cadence.weekly = codes "weekly"
cadence_db Cadence.monthly = codes "monthly"

-- `MessageRole::label`.
abbrev pub role_label : MessageRole → Text
role_label MessageRole.user = codes "user"
role_label MessageRole.assistant = codes "assistant"

-- `MemoryKind::as_db`.
abbrev pub memory_kind_db : MemoryKind → Text
memory_kind_db MemoryKind.fact = codes "fact"
memory_kind_db MemoryKind.preference = codes "preference"
memory_kind_db MemoryKind.payday = codes "payday"
memory_kind_db MemoryKind.goal = codes "goal"
memory_kind_db MemoryKind.person = codes "person"
memory_kind_db MemoryKind.other = codes "other"

-- The derived `PartialEq` of `Category`, by the position of the variant.
abbrev pub category_index : Category → ℕ
category_index Category.food = 0
category_index Category.transport = 1
category_index Category.bills = 2
category_index Category.shopping = 3
category_index Category.health = 4
category_index Category.entertainment = 5
category_index Category.savings_goals = 6
category_index Category.income = 7
category_index Category.other = 8

abbrev pub category_eq : Category → Category → Bool
category_eq c d = category_index c == category_index d

pub record RecurringInput : Type 0 where
  pub label : Text
  pub kind : TxKind
  pub amount_centavos : ℤ
  pub category : Category
  pub cadence : Cadence
  pub day_of_month : Option ℤ
  pub day_of_week : Option ℤ

pub data WriteIntent : Type 0 where
  -- kind, user_id, amount_centavos, category, note, local_date, account
  transaction : TxKind → Uuid → ℤ → Category → Option Text → NaiveDate → Option Text → WriteIntent
  -- user_id, goal_id, amount_centavos, local_date
  goal_contribution : Uuid → Uuid → ℤ → NaiveDate → WriteIntent
  -- user_id, target_id, target_same_turn
  delete_last : Uuid → Option Uuid → Bool → WriteIntent
  -- user_id, target_id, target_same_turn, amount_centavos, category, note
  edit_last : Uuid → Option Uuid → Bool → Option ℤ → Option Category → Option Text → WriteIntent
  -- user_id, name, target_centavos, target_date
  create_goal : Uuid → Text → ℤ → Option NaiveDate → WriteIntent
  -- user_id, category, monthly_limit_centavos
  set_budget : Uuid → Category → ℤ → WriteIntent
  remove_budget : Uuid → Category → WriteIntent
  -- user_id, goal_id, name, target_centavos, target_date
  edit_goal : Uuid → Uuid → Option Text → Option ℤ → Option (Option NaiveDate) → WriteIntent
  delete_goal : Uuid → Uuid → WriteIntent
  -- user_id, content, kind
  save_memory : Uuid → Text → MemoryKind → WriteIntent
  forget_memory : Uuid → Text → WriteIntent
  -- user_id, role, content
  save_turn : Uuid → MessageRole → Text → WriteIntent
  -- user_id, phone, content, dedup_key
  outbound_reply : Uuid → Text → Text → Option Text → WriteIntent
  add_recurring : Uuid → RecurringInput → WriteIntent
  remove_recurring : Uuid → Text → WriteIntent
  -- user_id, query, amount_centavos, category, cadence, day_of_month, day_of_week
  edit_recurring :
      Uuid
      → Text
      → Option ℤ
      → Option Category
      → Option Cadence
      → Option (Option ℤ)
      → Option (Option ℤ)
      → WriteIntent
  -- user_id, amount_centavos, from_account, to_account, note, local_date
  transfer : Uuid → ℤ → Option Text → Option Text → Option Text → NaiveDate → WriteIntent
  -- user_id, id
  consume_confirmation : Uuid → Uuid → WriteIntent

pub category_eq_sound : (c d : Category) → category_eq c d ≡ true → c ≡ d
category_eq_sound c d h = ground arith

pub category_eq_refl : (c : Category) → category_eq c c ≡ true
category_eq_refl c = ground arith
