-- ===== src/Db/Like.antt =====
-- crates/db/src/sql.rs: `escape_like`, and the `LIKE … ESCAPE '\'` of SQL that it is for.
pub mod Escape
use andy.Base.{
  ◌≡◌, refl, ℕ, Bool, true, false, ◌&&◌, ◌||◌, List, [], ◌∷◌, ◌++◌, Text, codes, ◌==◌,
  if◌then◌else◌,
}

-- `str::replace` of one character by a text.
unfoldable pub replace_char : ℕ → Text → Text → Text
replace_char c by [] = []
replace_char c by (d ∷ s) = (if d == c then by else d ∷ []) ++ replace_char c by s

unfoldable pub escape_like : Text → Text
unfolding replace_char
escape_like value =
    replace_char b'_' (92 ∷ b'_' ∷ [])
      (replace_char b'%' (92 ∷ b'%' ∷ []) (replace_char 92 (92 ∷ 92 ∷ []) value))

-- The items of a pattern, with `\` as the escape character.
pub data Item : Type 0 where
  any_run any_one : Item
  literal : ℕ → Item

abbrev pub item_of : ℕ → Item
item_of c = if c == b'%' then Item.any_run else if c == b'_' then Item.any_one else Item.literal c

-- The flag says that the character before was `\`. (A pattern that ends in it is an error in
-- Postgres; the code builds none.)
unfoldable pub items : Bool → Text → List Item
items escaped [] = []
items true (c ∷ s) = Item.literal c ∷ items false s
items false (c ∷ s) = elim (c == 92) [ true ↦ items true s | false ↦ item_of c ∷ items false s ]

-- Some suffix passes the test.
abbrev pub some_suffix : (Text → Bool) → Text → Bool
some_suffix p [] = p []
some_suffix p (c ∷ s) = p (c ∷ s) || some_suffix p s

unfoldable pub matches_items : List Item → Text → Bool
matches_items [] [] = true
matches_items [] (c ∷ s) = false
matches_items (Item.any_run ∷ p) s = some_suffix (matches_items p) s
matches_items (Item.any_one ∷ p) [] = false
matches_items (Item.any_one ∷ p) (c ∷ s) = matches_items p s
matches_items (Item.literal d ∷ p) [] = false
matches_items (Item.literal d ∷ p) (c ∷ s) = (d == c) && matches_items p s

-- `text like pattern escape '\'`
unfoldable pub like : Text → Text → Bool
unfolding items matches_items
like pattern text = matches_items (items false pattern) text

-- `format!("%{}%", escape_like(query))`
abbrev pub substring_pattern : Text → Text
substring_pattern query = b'%' ∷ (escape_like query ++ b'%' ∷ [])
