-- ===== src/Ai/Json.antt =====
-- The values that crates/ai builds with `json!`. An object is the list of its members.
use andy.Base.{Bool, Option, none, some, List, [], ◌∷◌, ℤ, Text}

mutual
  pub data Json : Type 0 where
    null : Json
    bool : Bool → Json
    num : ℤ → Json
    str : Text → Json
    arr : Items → Json
    obj : Members → Json

  pub data Items : Type 0 where
    nil : Items
    cons : Json → Items → Items

  pub data Members : Type 0 where
    done : Members
    member : Text → Json → Members → Members

abbrev pub items : List Json → Items
items [] = nil
items (j ∷ js) = cons j (items js)

abbrev pub array : List Json → Json
array js = arr (items js)

abbrev pub members : List (Text × Json) → Members
members [] = done
members ((k, j) ∷ ms) = member k j (members ms)

abbrev pub object : List (Text × Json) → Json
object ms = obj (members ms)

-- An `Option` that is serialised.
abbrev pub optional {ℓ} : {A : Type ℓ} → (A → Json) → Option A → Json
optional f none = null
optional f (some a) = f a
