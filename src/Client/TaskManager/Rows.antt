-- ===== src/Client/TaskManager/Rows.antt =====
-- From the rows of a buffer to the statements that insert them: by table, then in groups.
use mathlib.Core.List.{append_assoc}
use bili_user_spider.Prelude.{
  ℕ, zero, suc, ◌+◌, ◌-◌, ◌≤◌, ◌≡◌, refl, ◌∙◌, ap, List, [], ◌∷◌, ◌++◌, Bool, arith, if◌then◌else◌,
  length, length-append, ℤ,
}
use bili_user_spider.Prelude.OrdMap.{OrdMap}
use bili_user_spider.Client.Types.{Table}
use bili_user_spider.Client.TaskManager.Write.{
  records_per_query, table_of, add_row, add_rows, tables_map, chunks,
}

module _ {A : Type 0} where
  -- All rows of the groups, in their order.
  unfoldable pub flatten : List (List A) → List A
  flatten [] = []
  flatten (c ∷ cs) = c ++ flatten cs

  -- Every group has a row, and at most as many as fit into a statement.
  abbrev pub AllFitting : List (List A) → Type 0
  AllFitting [] = Unit {0}
  AllFitting (c ∷ cs) = ((1 ≤ length c) × (length c ≤ records_per_query)) × AllFitting cs

  flatten-chunks :
      (room : ℕ) (group rows : List A) → flatten (chunks room group rows) ≡ group ++ rows
  unfolding flatten chunks
  flatten-chunks room [] [] = refl
  flatten-chunks room (x ∷ xs) [] = refl
  flatten-chunks zero group (a ∷ rows) =
      ap (λ (rest : List A). group ++ rest) (flatten-chunks (records_per_query - 1) (a ∷ []) rows)
  flatten-chunks (suc room) group (a ∷ rows) =
      flatten-chunks room (group ++ a ∷ []) rows ∙ append_assoc group (a ∷ []) rows

  chunks-AllFitting :
      (room : ℕ) (group rows : List A)
      → length group + room ≡ records_per_query
      → AllFitting (chunks room group rows)
  unfolding chunks
  chunks-AllFitting room [] [] e = tt
  chunks-AllFitting room (x ∷ xs) [] e = ((omega arith, omega arith), tt)
  chunks-AllFitting zero group (a ∷ rows) e = (
    (omega arith, omega arith),
    chunks-AllFitting (records_per_query - 1) (a ∷ []) rows (omega arith),
  )
  chunks-AllFitting (suc room) group (a ∷ rows) e =
      chunks-AllFitting room (group ++ a ∷ []) rows (omega (arith, length-append group (a ∷ [])))

  -- The statements for a table carry its rows, each one once and in their order, and none is empty
  -- or longer than 128 rows.
  pub chunks_lem :
      (rows : List A)
      → (flatten (chunks records_per_query [] rows) ≡ rows)
        × AllFitting (chunks records_per_query [] rows)
  chunks_lem rows =
      (flatten-chunks records_per_query [] rows, chunks-AllFitting records_per_query [] rows refl)

  -- How many rows of a kind there are in a list, in a buffer, and by table.
  unfoldable pub how_many : (A → Bool) → List A → ℕ
  how_many p [] = 0
  how_many p (a ∷ rows) = (if p a then 1 else 0) + how_many p rows

  unfoldable pub in_buffer : (A → Bool) → OrdMap (List A) → ℕ
  in_buffer p [] = 0
  in_buffer p ((_, rows) ∷ buff) = how_many p rows + in_buffer p buff

  unfoldable pub in_tables : (A → Bool) → List (Table × List A) → ℕ
  in_tables p [] = 0
  in_tables p ((_, rows) ∷ m) = how_many p rows + in_tables p m

  how_many-append :
      (p : A → Bool) (xs ys : List A) → how_many p (xs ++ ys) ≡ how_many p xs + how_many p ys
  unfolding how_many
  how_many-append p [] ys = omega arith
  how_many-append p (x ∷ xs) ys = omega (arith, how_many-append p xs ys)

  in_tables-add_row :
      (p : A → Bool) (name_lt : Table → Table → Bool) (table : Table) (a : A)
      (m : List (Table × List A))
      → in_tables p (add_row name_lt table a m) ≡ how_many p (a ∷ []) + in_tables p m
  unfolding in_tables add_row how_many
  in_tables-add_row p name_lt table a [] = omega arith
  in_tables-add_row p name_lt table a ((other, rows) ∷ m) =
      ground (arith, in_tables-add_row p name_lt table a m, how_many-append p rows (a ∷ []))

  in_tables-add_rows :
      (p : A → Bool) (name_lt : Table → Table → Bool) (mid_of : A → ℤ) (rows : List A)
      (m : List (Table × List A))
      → in_tables p (add_rows name_lt mid_of rows m) ≡ how_many p rows + in_tables p m
  unfolding add_rows how_many
  in_tables-add_rows p name_lt mid_of [] m = omega arith
  in_tables-add_rows p name_lt mid_of (a ∷ rows) m =
      let next = add_row name_lt (table_of (mid_of a)) a m in
      omega (
        arith,
        in_tables-add_row p name_lt (table_of (mid_of a)) a m,
        in_tables-add_rows p name_lt mid_of rows next,
      )

  -- Sorting the rows of a buffer by table loses no row of any kind and doubles none.
  in_tables-tables_map :
      (p : A → Bool) (name_lt : Table → Table → Bool) (mid_of : A → ℤ) (buff : OrdMap (List A))
      (m : List (Table × List A))
      → in_tables p (tables_map name_lt mid_of buff m) ≡ in_buffer p buff + in_tables p m
  unfolding tables_map in_buffer
  in_tables-tables_map p name_lt mid_of [] m = omega arith
  in_tables-tables_map p name_lt mid_of ((id, rows) ∷ buff) m =
      let next = add_rows name_lt mid_of rows m in
      omega (
        arith,
        in_tables-add_rows p name_lt mid_of rows m,
        in_tables-tables_map p name_lt mid_of buff next,
      )
