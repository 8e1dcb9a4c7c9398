-- ===== src/Db/Like/Escape.antt =====
-- An escaped query has no wildcard left: `%query%` matches exactly the texts that contain it.
use andy.Base.{
  ==_iff, ℕ, ◌≡◌, refl, sym, ap, true, false, [], ◌∷◌, ◌++◌, map, Text, ◌==◌, if◌then◌else◌,
  starts_with, contains, Bool-cases, inl, inr,
}
use andy.Db.Like.{
  replace_char, escape_like, Item, items, some_suffix, matches_items, like, substring_pattern,
}
use mathlib.Core.List.{append_assoc}

replace_char-append :
    (c : ℕ) (by s t : Text)
    → replace_char c by (s ++ t) ≡ replace_char c by s ++ replace_char c by t
unfolding replace_char
replace_char-append c by [] t = refl
replace_char-append c by (d ∷ s) t =
    rw (replace_char-append c by s t) (sym (append_assoc (if d == c then by else d ∷ []) _ _))

-- What the three passes make of one character.
abbrev escaped_char : ℕ → Text
escaped_char c =
    if c == 92
    then 92 ∷ 92 ∷ []
    else if c == b'%'
    then 92 ∷ b'%' ∷ []
    else if c == b'_'
    then 92 ∷ b'_' ∷ []
    else c ∷ []

escape_like-cons : (c : ℕ) (s : Text) → escape_like (c ∷ s) ≡ escaped_char c ++ escape_like s
unfolding escape_like
escape_like-cons c s = elim (Bool-cases (c == 92)) [
  | inl backslash ↦ rw backslash
  | inr e ↦ rw e (elim (Bool-cases (c == b'%')) [
    | inl percent ↦ rw percent
    | inr f ↦ rw f (elim (Bool-cases (c == b'_')) [ inl underscore ↦ rw underscore | inr g ↦ rw g ])
  ])
]

items-empty : items false (escape_like [] ++ b'%' ∷ []) ≡ Item.any_run ∷ []
unfolding items escape_like
items-empty = refl

items-escape_like :
    (q : Text) → items false (escape_like q ++ b'%' ∷ []) ≡ map Item.literal q ++ Item.any_run ∷ []
unfolding items
items-escape_like [] = items-empty
items-escape_like (c ∷ q) =
    let ih = items-escape_like q in
    rw (escape_like-cons c q) (elim (Bool-cases (c == 92)) [
      | inl e ↦ rw ((==_iff c 92).0 e) (ap (λ r. Item.literal 92 ∷ r) ih)
      | inr e ↦ rw e (elim (Bool-cases (c == b'%')) [
        | inl f ↦ rw ((==_iff c b'%').0 f) (ap (λ r. Item.literal b'%' ∷ r) ih)
        | inr f ↦ rw f (elim (Bool-cases (c == b'_')) [
          | inl g ↦ rw ((==_iff c b'_').0 g) (ap (λ r. Item.literal b'_' ∷ r) ih)
          | inr g ↦ rw g (rw (e, items) (rw (f, g) (ap (λ r. Item.literal c ∷ r) ih)))
        ])
      ])
    ])

some_suffix-all : (s : Text) → some_suffix (matches_items []) s ≡ true
unfolding matches_items
some_suffix-all [] = refl
some_suffix-all (c ∷ s) = some_suffix-all s

matches-literals :
    (q s : Text) → matches_items (map Item.literal q ++ Item.any_run ∷ []) s ≡ starts_with q s
unfolding matches_items
matches-literals [] s = some_suffix-all s
matches-literals (c ∷ q) [] = refl
matches-literals (c ∷ q) (d ∷ s) = rw (matches-literals q s)

some_suffix-contains :
    (q s : Text)
    → some_suffix (matches_items (map Item.literal q ++ Item.any_run ∷ [])) s ≡ contains q s
unfolding contains
some_suffix-contains q [] = matches-literals q []
some_suffix-contains q (c ∷ s) = rw (matches-literals q (c ∷ s), some_suffix-contains q s)

-- A query is searched for literally, whatever `%`, `_` and `\` it holds: a text is `LIKE` the
-- pattern `%query%` of the escaped query exactly when it contains the query.
pub like-escape_like : (q s : Text) → like (substring_pattern q) s ≡ contains q s
unfolding like
like-escape_like q s = pattern_items q s
  where
    pattern_items :
        (q s : Text) → matches_items (items false (substring_pattern q)) s ≡ contains q s
    pattern_items q s = rw (← some_suffix-contains q s, ← items-escape_like q)
