-- ===== src/Frontend/Table.antt =====
-- components/base/data-table.tsx: the order of the rows. `Array.prototype.sort` is a parameter, and so
-- is `<` on what the columns read.
pub mod Order
use trust_vault.Prelude.{
  Bool, true, false, ◌≡◌, ◌≢◌, Option, none, some, List, [], ◌∷◌, Text, text_eq, All, if◌then◌else◌,
}
use mathlib.Core.List.{Perm}

pub data Direction : Type 0 where
  asc desc : Direction

pub record SortConfig : Type 0 where
  pub key : Text
  pub direction : Direction

-- A comparison function that gives a negative number, 0 or a positive number.
pub data Comparison : Type 0 where
  before same after : Comparison

abbrev opposite : Direction → Direction
opposite Direction.asc = Direction.desc
opposite Direction.desc = Direction.asc

unfoldable pub handle_sort : Text → Option SortConfig → SortConfig
handle_sort column_id none = record { key = column_id; direction = Direction.asc }
handle_sort column_id (some prev) =
    if text_eq prev.key column_id
    then record { key = column_id; direction = opposite prev.direction }
    else record { key = column_id; direction = Direction.asc }

-- What the table reads of a column for its order; `accessor` is `row[column.accessorKey]`, and a
-- column that does not say `sortable` is not.
pub record Column (Row Cell : Type 0) : Type 0 where
  pub id : Text
  pub accessor : Option (Row → Cell)
  pub sortable : Bool

-- `onClick` of a header: `column.sortable && handleSort(column.id)`.
unfoldable pub click : {Row Cell : Type 0} → Column Row Cell → Option SortConfig → Option SortConfig
unfolding handle_sort
click column prev = if column.sortable then some (handle_sort column.id prev) else prev

-- Every earlier element is related to every later one.
abbrev pub IsOrdered : {A : Type 0} → (A → A → Type 0) → List A → Type 0
IsOrdered R [] = Unit
IsOrdered R (x ∷ xs) = All (R x) xs × IsOrdered R xs

module _ {Row : Type 0} where
  -- A comparison function that orders its arguments.
  pub record IsConsistent (compare : Row → Row → Comparison) : Type 0 where
    pub flips : (x y : Row) → compare x y ≡ Comparison.after → compare y x ≢ Comparison.after
    pub follows :
        (x y z : Row)
        → compare x y ≢ Comparison.after
        → compare y z ≢ Comparison.after
        → compare x z ≢ Comparison.after

-- What the program relies on: `sort` rearranges, and by a consistent comparison function it orders.
pub record Sorting (Row : Type 0) : Type 0 where
  pub sort : (Row → Row → Comparison) → List Row → List Row
  pub sort_perm :
      (compare : Row → Row → Comparison) (rows : List Row) → Perm (sort compare rows) rows
  pub sort-IsOrdered :
      (compare : Row → Row → Comparison) (rows : List Row)
      → IsConsistent compare
      → IsOrdered (λ x y. compare x y ≢ Comparison.after) (sort compare rows)

-- `direction === 'asc' ? -1 : 1` where the first is less, and the reverse where it is greater.
abbrev compare_cells : {Cell : Type 0} → (Cell → Cell → Bool) → Direction → Cell → Cell → Comparison
compare_cells less Direction.asc a b =
    if less a b then Comparison.before else if less b a then Comparison.after else Comparison.same
compare_cells less Direction.desc a b =
    if less a b then Comparison.after else if less b a then Comparison.before else Comparison.same

-- `columns.find((c) => c.id === key)?.accessorKey`
abbrev pub accessor_of : {Row Cell : Type 0} → Text → List (Column Row Cell) → Option (Row → Cell)
accessor_of key [] = none
accessor_of key (c ∷ columns) = if text_eq c.id key then c.accessor else accessor_of key columns

module _ {Row Cell : Type 0} (less : Cell → Cell → Bool) where
  abbrev compare_by : Option (Row → Cell) → Direction → Row → Row → Comparison
  compare_by none direction x y = Comparison.same
  compare_by (some f) direction x y = compare_cells less direction (f x) (f y)

  unfoldable pub sorted_data :
      Sorting Row → List (Column Row Cell) → Option SortConfig → List Row → List Row
  sorted_data sorting columns none rows = rows
  sorted_data sorting columns (some config) rows =
      sorting.sort (compare_by (accessor_of config.key columns) config.direction) rows
