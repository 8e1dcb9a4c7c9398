-- ===== src/Base/Perm.antt =====
-- Rearrangements of a list: their length, and what holds of each element.
use Prim.Native.Nat.{suc}
use mathlib.Core.Path.{◌≡◌, refl, ◌∙◌, ap, subst}
use mathlib.Core.List.{List, Permᴰ}
use andy.Base.Lists.{All, length}

module _ {ℓ} {A : Type ℓ} where
  pub length-Permᴰ : {xs ys : List A} → Permᴰ xs ys → length xs ≡ length ys
  length-Permᴰ Permᴰ.nil = refl
  length-Permᴰ (Permᴰ.cons e p) = ap suc (length-Permᴰ p)
  length-Permᴰ (Permᴰ.swap e e') = refl
  length-Permᴰ (Permᴰ.trans p q) = length-Permᴰ p ∙ length-Permᴰ q

  pub All-Permᴰ : (P : A → Type 0) {xs ys : List A} → Permᴰ xs ys → All P xs → All P ys
  All-Permᴰ P Permᴰ.nil h = tt
  All-Permᴰ P (Permᴰ.cons e p) h = (subst P e h.0, All-Permᴰ P p h.1)
  All-Permᴰ P (Permᴰ.swap e e') h = (subst P e' h.1.0, (subst P e h.0, h.1.1))
  All-Permᴰ P (Permᴰ.trans p q) h = All-Permᴰ P q (All-Permᴰ P p h)
