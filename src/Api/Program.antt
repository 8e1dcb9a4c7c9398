-- ===== src/Api/Program.antt =====
-- The async functions of crates/api: programs that run statements on the database, one transaction
-- each, and call the message provider. An error stops a program and leaves what it had committed.
pub mod Holds
use andy.Base.{Option, none, some, List, Text}
use andy.Db.Tables.{Database, DbError, Result, ok, err}

-- `sent` holds the number and the text of every call of the provider, the newest first.
pub record World : Type 0 where
  pub db : Database
  pub sent : List (Text × Text)

-- What an error stands for: a statement that failed, a message that the provider did not take, or
-- settings that cannot be used.
pub data ProgramError : Type 0 where
  database : DbError → ProgramError
  unsent misconfigured : ProgramError

pub data Outcome {ℓ} (A : Type ℓ) : Type ℓ where
  done : A → World → Outcome A
  failed : ProgramError → World → Outcome A

abbrev pub Program {ℓ} : Type ℓ → Type ℓ
Program A = World → Outcome A

abbrev pub pure {ℓ} : {A : Type ℓ} → A → Program A
pure a w = done a w

infixl 5 ◌>>=◌ ◌>>◌
abbrev pub ◌>>=◌ {ℓ κ} : {A : Type ℓ} {B : Type κ} → Program A → (A → Program B) → Program B
(m >>= f) w = elim (m w) [ done a w' ↦ f a w' | failed e w' ↦ failed e w' ]

abbrev pub ◌>>◌ {ℓ κ} : {A : Type ℓ} {B : Type κ} → Program A → Program B → Program B
m >> k = m >>= λ _. k

abbrev pub fail {ℓ} : {A : Type ℓ} → ProgramError → Program A
fail e w = failed e w

-- A statement that cannot fail, one that gives an answer, and one that can fail.
abbrev pub execute : (Database → Database) → Program (Unit {0})
execute f w = done tt (record w { db = f w.db })

abbrev pub query {ℓ} : {A : Type ℓ} → (Database → A × Database) → Program A
query f w = done (f w.db).0 (record w { db = (f w.db).1 })

abbrev pub try_query {ℓ} : {A : Type ℓ} → (Database → Result (A × Database)) → Program A
try_query f w = elim (f w.db) [
  | ok r ↦ done r.0 (record w { db = r.1 })
  | err e ↦ failed (database e) w
]

abbrev pub try_execute : (Database → Result Database) → Program (Unit {0})
try_execute f w = elim (f w.db) [
  | ok db ↦ done tt (record w { db = db })
  | err e ↦ failed (database e) w
]

-- A read that can fail.
abbrev pub read {ℓ} : {A : Type ℓ} → (Database → Result A) → Program A
read f w = elim (f w.db) [ ok a ↦ done a w | err e ↦ failed (database e) w ]

abbrev pub look {ℓ} : {A : Type ℓ} → (Database → A) → Program A
look f w = done (f w.db) w

-- The tables at the end of a run, however it ends.
abbrev pub final {ℓ} : {A : Type ℓ} → Outcome A → World
final (done a w) = w
final (failed e w) = w

-- `run_step` of crates/api/src/cron.rs: an error is logged, and the fallback is the result.
abbrev pub or_else {ℓ} : {A : Type ℓ} → A → Program A → Program A
or_else fallback m w = elim (m w) [ done a w' ↦ done a w' | failed e w' ↦ done fallback w' ]

-- `?` on the answer of the provider.
abbrev pub must_send {ℓ} : {E : Type ℓ} → Option E → Program (Unit {0})
must_send none w = done tt w
must_send (some e) w = failed unsent w
