-- ===== src/Admin/Table/Laws.antt =====
-- The table shows every client, in the order of its column.
use mathlib.Core.List.{Perm}
use mathlib.Core.Path.{sym}
use bili_user_spider.Prelude.{
  List, [], ◌∷◌, ◌≡◌, refl, ap, ◌∙◌, some, Bool, true, false, not, if◌then◌else◌, ℤ, int_laws, ◌+ℤ◌,
  Bool-cases, inl, inr, ltb_ℤ, arith, pos, ◌≢◌, ◌⊎◌, ℕ, suc, length,
}
use bili_user_spider.Admin.Sort.{insert, sort, lt_text}
use bili_user_spider.Admin.Sort.Laws.{
  IsStrictWeak, IsSorted, sort-perm, sort-IsSorted, number-IsStrictWeak, text-IsStrictWeak,
  flip-IsStrictWeak,
}
use bili_user_spider.Admin.Table.{
  SpiderClientInfo, Key, number, text, compares, Column, key_of, AllSpeeds, Row, show_row,
  show_rows, id, host, os, run_time, threads, count, speed_3m, speed_5m, speed_10m, speed_30m,
  speed, Totals, no_totals, add_client, totals, Table, show_clients_info, is_same, is_text_col,
  on_horizontal_header_clicked,
}

-- Each of the twenty-two comparisons may be sorted by.
compares-IsStrictWeak : (key : Key) (is_asc : Bool) → IsStrictWeak (compares key is_asc)
unfolding compares
compares-IsStrictWeak (number key) true = number-IsStrictWeak key
compares-IsStrictWeak (number key) false = flip-IsStrictWeak _ (number-IsStrictWeak key)
compares-IsStrictWeak (text key) true = text-IsStrictWeak key
compares-IsStrictWeak (text key) false = flip-IsStrictWeak _ (text-IsStrictWeak key)

abbrev pub infos_of : List Row → List SpiderClientInfo
infos_of [] = []
infos_of (row ∷ rows) = row.info ∷ infos_of rows

show_rows-infos :
    (is_new : Bool) (now : ℤ) (infos : List SpiderClientInfo) (s : AllSpeeds)
    → infos_of (show_rows is_new now infos s).0 ≡ infos
unfolding show_rows show_row
show_rows-infos is_new now [] s = refl
show_rows-infos is_new now (info ∷ infos) s =
    ap (λ is. info ∷ is) (show_rows-infos is_new now infos (show_row is_new now info s).1)

-- Which of two clients stands above the other when the column ascends.
unfoldable pub stands_above : Column → SpiderClientInfo → SpiderClientInfo → Bool
stands_above id a b = ltb_ℤ a.id b.id
stands_above host a b = lt_text a.host b.host
stands_above os a b = lt_text a.os b.os
stands_above run_time a b = ltb_ℤ a.join_time b.join_time
stands_above threads a b = ltb_ℤ a.threads b.threads
stands_above count a b = ltb_ℤ a.count b.count
stands_above speed_3m a b = ltb_ℤ a.average_speed_3m b.average_speed_3m
stands_above speed_5m a b = ltb_ℤ a.average_speed_5m b.average_speed_5m
stands_above speed_10m a b = ltb_ℤ a.average_speed_10m b.average_speed_10m
stands_above speed_30m a b = ltb_ℤ a.average_speed_30m b.average_speed_30m
stands_above speed a b = ltb_ℤ a.average_speed b.average_speed

abbrev pub in_direction :
    Bool → (SpiderClientInfo → SpiderClientInfo → Bool) → SpiderClientInfo → SpiderClientInfo → Bool
in_direction true above a b = above a b
in_direction false above a b = above b a

compares-key_of :
    (col : Column) (is_asc : Bool) (a b : SpiderClientInfo)
    → compares (key_of col) is_asc a b ≡ in_direction is_asc (stands_above col) a b
unfolding compares key_of stands_above
compares-key_of id true a b = refl
compares-key_of id false a b = refl
compares-key_of host true a b = refl
compares-key_of host false a b = refl
compares-key_of os true a b = refl
compares-key_of os false a b = refl
compares-key_of run_time true a b = refl
compares-key_of run_time false a b = refl
compares-key_of threads true a b = refl
compares-key_of threads false a b = refl
compares-key_of count true a b = refl
compares-key_of count false a b = refl
compares-key_of speed_3m true a b = refl
compares-key_of speed_3m false a b = refl
compares-key_of speed_5m true a b = refl
compares-key_of speed_5m false a b = refl
compares-key_of speed_10m true a b = refl
compares-key_of speed_10m false a b = refl
compares-key_of speed_30m true a b = refl
compares-key_of speed_30m false a b = refl
compares-key_of speed true a b = refl
compares-key_of speed false a b = refl

IsSorted-in_direction :
    (col : Column) (is_asc : Bool) (infos : List SpiderClientInfo)
    → IsSorted (compares (key_of col) is_asc) infos
    → IsSorted (in_direction is_asc (stands_above col)) infos
IsSorted-in_direction col is_asc [] s = tt
IsSorted-in_direction col is_asc (x ∷ []) s = tt
IsSorted-in_direction col is_asc (x ∷ y ∷ infos) s =
    (sym (compares-key_of col is_asc y x) ∙ s.0, IsSorted-in_direction col is_asc (y ∷ infos) s.1)

is_same-true : (a b : Column) → is_same a b ≡ true → a ≡ b
unfolding is_same
is_same-true id b h = ground arith
is_same-true host b h = ground arith
is_same-true os b h = ground arith
is_same-true run_time b h = ground arith
is_same-true threads b h = ground arith
is_same-true count b h = ground arith
is_same-true speed_3m b h = ground arith
is_same-true speed_5m b h = ground arith
is_same-true speed_10m b h = ground arith
is_same-true speed_30m b h = ground arith
is_same-true speed b h = ground arith

is_same_self : (a : Column) → is_same a a ≡ true
unfolding is_same
is_same_self id = refl
is_same_self host = refl
is_same_self os = refl
is_same_self run_time = refl
is_same_self threads = refl
is_same_self count = refl
is_same_self speed_3m = refl
is_same_self speed_5m = refl
is_same_self speed_10m = refl
is_same_self speed_30m = refl
is_same_self speed = refl

+ℤ_swap : (a b c : ℤ) → (a +ℤ b) +ℤ c ≡ (a +ℤ c) +ℤ b
+ℤ_swap a b c = omega int_laws

add_client_swap :
    (a b : SpiderClientInfo) (t : Totals)
    → add_client a (add_client b t) ≡ add_client b (add_client a t)
unfolding add_client
add_client_swap a b t = simp (+ℤ_swap)

totals-insert :
    (lt : SpiderClientInfo → SpiderClientInfo → Bool) (a : SpiderClientInfo)
    (infos : List SpiderClientInfo) (t : Totals)
    → totals (insert lt a infos) t ≡ totals infos (add_client a t)
unfolding totals insert
totals-insert lt a [] t = refl
totals-insert lt a (x ∷ infos) t = elim (Bool-cases (lt x a)) [
  | inl e ↦
      rw e (totals-insert lt a infos (add_client x t) ∙ ap (totals infos) (add_client_swap a x t))
  | inr e ↦ rw e refl
]

totals-sort :
    (lt : SpiderClientInfo → SpiderClientInfo → Bool) (infos : List SpiderClientInfo) (t : Totals)
    → totals (sort lt infos) t ≡ totals infos t
unfolding sort totals
totals-sort lt [] t = refl
totals-sort lt (x ∷ infos) t =
    totals-insert lt x (sort lt infos) t ∙ totals-sort lt infos (add_client x t)

pos_suc : (n : ℕ) → pos 1 +ℤ pos n ≡ pos (suc n)
pos_suc n = omega int_laws

-- The sum of a member over the clients.
unfoldable pub sum_of : (SpiderClientInfo → ℤ) → List SpiderClientInfo → ℤ
sum_of member [] = pos 0
sum_of member (info ∷ infos) = member info +ℤ sum_of member infos

sum_of_ones : (infos : List SpiderClientInfo) → sum_of (λ info. pos 1) infos ≡ pos (length infos)
unfolding sum_of
sum_of_ones [] = refl
sum_of_ones (info ∷ infos) = ap (λ n. pos 1 +ℤ n) (sum_of_ones infos) ∙ pos_suc (length infos)

+ℤ_assoc : (a b c : ℤ) → (a +ℤ b) +ℤ c ≡ a +ℤ (b +ℤ c)
+ℤ_assoc a b c = omega int_laws

+ℤ_zero : (a : ℤ) → a +ℤ pos 0 ≡ a
+ℤ_zero a = omega int_laws

totals-sum_of :
    (infos : List SpiderClientInfo) (t : Totals)
    → totals infos t ≡ record {
      clients = t.clients +ℤ sum_of (λ info. pos 1) infos;
      threads = t.threads +ℤ sum_of (λ info. info.threads) infos;
      count = t.count +ℤ sum_of (λ info. info.count) infos;
      speed_3m = t.speed_3m +ℤ sum_of (λ info. info.average_speed_3m) infos;
      speed_5m = t.speed_5m +ℤ sum_of (λ info. info.average_speed_5m) infos;
      speed_10m = t.speed_10m +ℤ sum_of (λ info. info.average_speed_10m) infos;
      speed_30m = t.speed_30m +ℤ sum_of (λ info. info.average_speed_30m) infos;
      speed = t.speed +ℤ sum_of (λ info. info.average_speed) infos;
    }
unfolding totals sum_of add_client
totals-sum_of [] t = simp (+ℤ_zero)
totals-sum_of (info ∷ infos) t = totals-sum_of infos (add_client info t) ∙ simp (+ℤ_assoc)

-- What the last row has to show.
abbrev pub sums_of : List SpiderClientInfo → Totals
sums_of infos = record {
  clients = pos (length infos);
  threads = sum_of (λ info. info.threads) infos;
  count = sum_of (λ info. info.count) infos;
  speed_3m = sum_of (λ info. info.average_speed_3m) infos;
  speed_5m = sum_of (λ info. info.average_speed_5m) infos;
  speed_10m = sum_of (λ info. info.average_speed_10m) infos;
  speed_30m = sum_of (λ info. info.average_speed_30m) infos;
  speed = sum_of (λ info. info.average_speed) infos;
}

zero_+ℤ : (a : ℤ) → pos 0 +ℤ a ≡ a
zero_+ℤ a = omega int_laws

totals-sums_of : (infos : List SpiderClientInfo) → totals infos no_totals ≡ sums_of infos
totals-sums_of infos = totals-sum_of infos no_totals ∙ simp (zero_+ℤ, sum_of_ones)

-- The direction after a click on the header of a column: the other one on the column that the table
-- goes by, and on another one ascending for the id, the host and the system only.
unfoldable pub IsDirection : Column → Column → Bool → Bool → Type 0
IsDirection col sort_col was_asc is_asc =
    ((col ≡ sort_col) × (is_asc ≡ not was_asc))
    ⊎ ((col ≢ sort_col) × (is_asc ≡ elim col [ id ↦ true | host ↦ true | os ↦ true | _ ↦ false ]))

is_asc-IsDirection :
    (col : Column) (t : Table)
    → IsDirection col t.sort_col t.is_asc
        (if is_same col t.sort_col then not t.is_asc else is_text_col col)
unfolding IsDirection is_text_col
is_asc-IsDirection col t = elim (Bool-cases (is_same col t.sort_col)) [
  | inl e ↦ rw e (inl (is_same-true col t.sort_col e, refl))
  | inr e ↦ rw e (inr (λ same. ground (arith, e, is_same_self t.sort_col, same), ground arith))
]

-- A table that no menu holds goes, after a click on the header of a column, by that column, in the
-- other direction if it went by it before, and ascending for the id, the host and the system and
-- descending for the others if not. It has a row for each client and no other, in that direction of
-- the member that belongs to the column, which is the time of joining for the column of the run
-- time; and the last row has the number of the clients and the sums of their threads, their counts
-- and each of the five speeds.
pub on_horizontal_header_clicked-rows :
    (col : Column) (now : ℤ) (t : Table)
    → t.is_locked ≡ false
    → let t' = on_horizontal_header_clicked col now t in
      (t'.sort_col ≡ col)
      × IsDirection col t.sort_col t.is_asc t'.is_asc
      × Perm (infos_of t'.rows) t.clients_info
      × IsSorted (in_direction t'.is_asc (stands_above col)) (infos_of t'.rows)
      × (t'.total ≡ some (sums_of t.clients_info))
unfolding on_horizontal_header_clicked show_clients_info
on_horizontal_header_clicked-rows col now t free =
    let is_asc = if is_same col t.sort_col then not t.is_asc else is_text_col col in
    let lt = compares (key_of col) is_asc in
    rw (free, show_rows-infos false now (sort lt t.clients_info) t.speeds)
      (
        refl,
        is_asc-IsDirection col t,
        sort-perm lt t.clients_info,
        IsSorted-in_direction col is_asc (sort lt t.clients_info)
            (sort-IsSorted lt (compares-IsStrictWeak (key_of col) is_asc) t.clients_info),
        ap (λ s. some s) (totals-sort lt t.clients_info no_totals ∙ totals-sums_of t.clients_info),
      )
