-- ===== src/Frontend/Tests/Table.antt =====
-- A test of the table, with an insertion sort.
use trust_vault.Prelude.{
  ℕ, ◌≡◌, ◌≢◌, refl, Bool, true, false, some, List, [], ◌∷◌, All, text, if◌then◌else◌, Bool-cases,
  inl, inr,
}
use mathlib.Core.List.{Perm}
use mathlib.Core.List.Perm
use trust_vault.Frontend.Table.{Comparison, Column, IsOrdered, IsConsistent, Sorting}

abbrev is_after : Comparison → Bool
is_after Comparison.after = true
is_after _ = false

module _ {Row : Type 0} (compare : Row → Row → Comparison) where
  insert : Row → List Row → List Row
  insert x [] = x ∷ []
  insert x (y ∷ rows) =
      let rest = insert x rows in if is_after (compare x y) then y ∷ rest else x ∷ y ∷ rows

  insertion_sort : List Row → List Row
  unfolding insert
  insertion_sort [] = []
  insertion_sort (x ∷ rows) = insert x (insertion_sort rows)

  insert_perm : (x : Row) (rows : List Row) → Perm (insert x rows) (x ∷ rows)
  unfolding insert
  insert_perm x [] = Perm.refl (x ∷ [])
  insert_perm x (y ∷ rows) = elim (Bool-cases (is_after (compare x y))) [
    | inl e ↦ rw (e, insert) (Perm.trans (Perm.cons y (insert_perm x rows)) (Perm.swap x y rows))
    | inr e ↦ rw (e, insert) (Perm.refl (x ∷ y ∷ rows))
  ]

  insertion_sort_perm : (rows : List Row) → Perm (insertion_sort rows) rows
  unfolding insertion_sort
  insertion_sort_perm [] = Perm.refl []
  insertion_sort_perm (x ∷ rows) =
      Perm.trans (insert_perm x (insertion_sort rows)) (Perm.cons x (insertion_sort_perm rows))

  abbrev IsAtMost : Row → Row → Type 0
  IsAtMost x y = compare x y ≢ Comparison.after

  module _ (consistent : IsConsistent compare) where
    All-IsAtMost :
        (x y : Row) (rows : List Row) → IsAtMost x y → All (IsAtMost y) rows → All (IsAtMost x) rows
    All-IsAtMost x y [] h k = tt
    All-IsAtMost x y (z ∷ rows) h k = (consistent.follows x y z h k.0, All-IsAtMost x y rows h k.1)

    insert-All :
        (y x : Row) (rows : List Row)
        → IsAtMost y x
        → All (IsAtMost y) rows
        → All (IsAtMost y) (insert x rows)
    unfolding insert
    insert-All y x [] h k = (h, tt)
    insert-All y x (z ∷ rows) h k = elim (Bool-cases (is_after (compare x z))) [
      | inl e ↦ rw (e, insert) (k.0, insert-All y x rows h k.1)
      | inr e ↦ rw (e, insert) (h, k)
    ]

    after_of : (c : Comparison) → is_after c ≡ true → c ≡ Comparison.after
    after_of Comparison.after e = refl
    after_of Comparison.before e = cc
    after_of Comparison.same e = cc

    not_after_of : (c : Comparison) → is_after c ≡ false → c ≢ Comparison.after
    not_after_of Comparison.after e = cc
    not_after_of Comparison.before e = λ q. cc
    not_after_of Comparison.same e = λ q. cc

    insert-IsOrdered :
        (x : Row) (rows : List Row) → IsOrdered IsAtMost rows → IsOrdered IsAtMost (insert x rows)
    unfolding insert
    insert-IsOrdered x [] h = (tt, tt)
    insert-IsOrdered x (y ∷ rows) h = elim (Bool-cases (is_after (compare x y))) [
      | inl e ↦
          rw (e, insert)
            (
              insert-All y x rows (consistent.flips x y (after_of (compare x y) e)) h.0,
              insert-IsOrdered x rows h.1,
            )
      | inr e ↦
          let least : IsAtMost x y = not_after_of (compare x y) e in
          rw (e, insert) ((least, All-IsAtMost x y rows least h.0), h)
    ]

    insertion_sort-IsOrdered : (rows : List Row) → IsOrdered IsAtMost (insertion_sort rows)
    unfolding insertion_sort
    insertion_sort-IsOrdered [] = tt
    insertion_sort-IsOrdered (x ∷ rows) =
        insert-IsOrdered x (insertion_sort rows) (insertion_sort-IsOrdered rows)

abbrev sorting : {Row : Type 0} → Sorting Row
sorting = record {
  sort = insertion_sort;
  sort_perm = insertion_sort_perm;
  sort-IsOrdered = λ compare rows consistent. insertion_sort-IsOrdered compare consistent rows;
}

abbrev size : Column ℕ ℕ
size = record { id = text "size"; accessor = some (λ n. n); sortable = true }

abbrev rows : List ℕ
rows = 2 ∷ 3 ∷ 1 ∷ []
