-- ===== src/Frontend/Table/Order.antt =====
-- What a click on a column's header shows.
use trust_vault.Prelude.{Bool, true, false, ◌≡◌, Option, none, some, List, Text, text_eq}
use trust_vault.Frontend.Table.{Direction, SortConfig}

-- What the program relies on for `<` on the values of a column: numbers other than NaN, or strings.
pub record IsStrictOrder {Cell : Type 0} (less : Cell → Cell → Bool) : Type 0 where
  pub one_way : (a b : Cell) → less a b ≡ true → less b a ≡ false
  pub chains : (a b c : Cell) → less a b ≡ false → less b c ≡ false → less a c ≡ false

abbrev pub IsOther : Text → Option SortConfig → Type 0
IsOther column_id none = Unit
IsOther column_id (some prev) = text_eq prev.key column_id ≡ false

module _ {Row Cell : Type 0} (less : Cell → Cell → Bool) (order : IsStrictOrder less)
    (f : Row → Cell) where
  -- The two cells in the order in which the direction has them.
  abbrev pub IsInOrder : Direction → Row → Row → Type 0
  IsInOrder Direction.asc x y = less (f y) (f x) ≡ false
  IsInOrder Direction.desc x y = less (f x) (f y) ≡ false
