-- ===== src/Api/Program/Holds.antt =====
-- Invariants of the programs of crates/api: what holds of the tables before a program holds after it,
-- however it ends.
use mathlib.Core.Path.{subst}
use andy.Base.{◌≡◌, sym, Bool, true, false, if◌then◌else◌}
use andy.Db.Tables.{Database, Result, ok, err, Ensures}
use andy.Api.Program
use andy.Api.Program.{
  World, Outcome, Program, pure, execute, query, try_query, try_execute, look, read, or_else, final,
}

pub record Holds {ℓ κ} {A : Type ℓ} (P : Database → Type κ) (m : Program A) : Type κ where
  pub run : (w : World) → P w.db → P (final (m w)).db

module _ {κ} (P : Database → Type κ) where
  pub Holds-bind {ℓ μ} :
      {A : Type ℓ} {B : Type μ} (m : Program A) (f : A → Program B)
      → Holds P m
      → ((a : A) → Holds P (f a))
      → Holds P (Program.◌>>=◌ m f)
  Holds-bind {A = A} m f h k = record { run = λ w b. go w (m w) (h.run w b) }
    where
      go : (w : World) (o : Outcome A) → P (final o).db → P (final (Program.◌>>=◌ (λ _. o) f w)).db
      go w (Outcome.done a w') p = (k a).run w' p
      go w (Outcome.failed e w') p = p

  -- What is read of the tables is known to the rest.
  pub Holds-look_bind {ℓ μ ν} :
      {A : Type ℓ} {B : Type μ} (Q : A → Type ν) (f : Database → A) (k : A → Program B)
      → ((db : Database) → P db → Q (f db))
      → ((a : A) → Q a → Holds P (k a))
      → Holds P (Program.◌>>=◌ (look f) k)
  Holds-look_bind Q f k h rest = record { run = λ w b. (rest (f w.db) (h w.db b)).run w b }

  pub Holds-query {ℓ} :
      {A : Type ℓ} (f : Database → A × Database)
      → ((db : Database) → P db → P (f db).1)
      → Holds P (query f)
  Holds-query f h = record { run = λ w b. h w.db b }

  pub Holds-execute :
      (f : Database → Database) → ((db : Database) → P db → P (f db)) → Holds P (execute f)
  Holds-execute f h = record { run = λ w b. h w.db b }

  pub Holds-try_query {ℓ} :
      {A : Type ℓ} (f : Database → Result (A × Database))
      → ((db : Database) → P db → Ensures (λ r. P r.1) (f db))
      → Holds P (try_query f)
  Holds-try_query {A = A} f h = record { run = λ w b. go w b (f w.db) (h w.db b) }
    where
      go :
          (w : World) (b : P w.db) (r : Result (A × Database))
          → Ensures (λ x. P x.1) r
          → P (final (try_query (λ _. r) w)).db
      go w b (ok r) p = p
      go w b (err e) p = b

  pub Holds-try_execute :
      (f : Database → Result Database)
      → ((db : Database) → P db → Ensures P (f db))
      → Holds P (try_execute f)
  Holds-try_execute f h = record { run = λ w b. go w b (f w.db) (h w.db b) }
    where
      go :
          (w : World) (b : P w.db) (r : Result Database)
          → Ensures P r
          → P (final (try_execute (λ _. r) w)).db
      go w b (ok db) p = p
      go w b (err e) p = b

  pub Holds-silent {ℓ} :
      {A : Type ℓ} (m : Program A) → ((w : World) → (final (m w)).db ≡ w.db) → Holds P m
  Holds-silent m h = record { run = λ w b. subst P (sym (h w)) b }

  pub Holds-read {ℓ} : {A : Type ℓ} (f : Database → Result A) → Holds P (read f)
  Holds-read {A = A} f = record { run = λ w b. go w b (f w.db) }
    where
      go : (w : World) → P w.db → (r : Result A) → P (final (read (λ _. r) w)).db
      go w b (ok a) = b
      go w b (err e) = b

  pub Holds-pure {ℓ} : {A : Type ℓ} (a : A) → Holds P (pure a)
  Holds-pure a = record { run = λ w b. b }

  -- A step whose error is logged.
  pub Holds-or_else {ℓ} :
      {A : Type ℓ} (fallback : A) (m : Program A) → Holds P m → Holds P (or_else fallback m)
  Holds-or_else {A = A} fallback m h = record { run = λ w b. go w (m w) (h.run w b) }
    where
      go : (w : World) (o : Outcome A) → P (final o).db → P (final (or_else fallback (λ _. o) w)).db
      go w (Outcome.done a w') p = p
      go w (Outcome.failed e w') p = p

  -- Two programs of which a test runs one.
  pub Holds-choice {ℓ} :
      {A : Type ℓ} (c : Bool) (m k : Program A)
      → Holds P m
      → Holds P k
      → Holds P (if c then m else k)
  Holds-choice true m k h j = h
  Holds-choice false m k h j = j

  pub final-choice {ℓ} :
      {A : Type ℓ} (c : Bool) (o k : Outcome A)
      → P (final o).db
      → P (final k).db
      → P (final (if c then o else k)).db
  final-choice true o k h j = h
  final-choice false o k h j = j
