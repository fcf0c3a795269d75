-- ===== src/Client/TaskManager/Sql/Fits.antt =====
-- The statements that write the buffers to the database fit into theirs.
use mathlib.Core.Path.{subst, sym}
use bili_user_spider.Prelude.{
  ℕ, zero, suc, ◌+◌, ◌*◌, ◌≤◌, List, [], ◌∷◌, ◌++◌, map, arith, ℤ, length, length-append,
  length-map,
}
use bili_user_spider.Sql.{codes, show_u}
use bili_user_spider.Sql.Laws.{
  AllAtMost, length-show_u, length-show_d, length-statement, length-concat_total,
}
use bili_user_spider.Client.Types.{UserInfo, Table}
use bili_user_spider.Client.TaskManager.Write.{records_per_query, chunks}
use bili_user_spider.Client.TaskManager.Rows.{AllFitting, flatten, chunks_lem}
use bili_user_spider.Client.TaskManager.Sql.{
  table_name, ok_table_name, none_table_name, ok_name_size, none_name_size, take, stored_face,
  escape_string, info_fields, append_info_to_sql, ok_start, ok_sql, ok_size, none_row, none_start,
  none_sql, none_size,
}

-- The names of the tables fit into theirs.
pub table_name-fits :
    (t : Table)
    → (suc (length (ok_table_name t)) ≤ ok_name_size)
      × (suc (length (none_table_name t)) ≤ none_name_size)
unfolding table_name codes
table_name-fits t = (
  omega (
    arith,
    length-append (show_u t.start) (codes "_" ++ show_u t.end),
    length-show_u t.start,
    length-show_u t.end,
  ),
  omega (
    arith,
    length-append (show_u t.start) (codes "_" ++ show_u t.end),
    length-show_u t.start,
    length-show_u t.end,
  ),
)

length-none_row : (mid : ℤ) → length (none_row mid) ≤ 13
unfolding none_row codes
length-none_row mid = omega (arith, length-append (show_u mid) (codes "),"), length-show_u mid)

none_rows-AllAtMost : (mids : List ℤ) → AllAtMost 13 (map none_row mids)
none_rows-AllAtMost [] = tt
none_rows-AllAtMost (m ∷ mids) = (length-none_row m, none_rows-AllAtMost mids)

length-table_name : (t : Table) → length (none_table_name t) ≤ 30
unfolding table_name codes
length-table_name t = omega (
  arith,
  length-append (show_u t.start) (codes "_" ++ show_u t.end),
  length-show_u t.start,
  length-show_u t.end,
)

length-none_start : (t : Table) → (1 ≤ length (none_start t)) × (length (none_start t) ≤ 64)
unfolding none_start codes
length-none_start t =
    let all = length-append (none_table_name t) (codes " (`mid`) VALUE") in
    (omega arith, omega (arith, all, length-table_name t))

-- The statements of a group of ids.
none_sql-fits :
    (t : Table) (mids : List ℤ)
    → length mids ≤ records_per_query
    → length (none_sql t mids) ≤ none_size
unfolding none_sql
none_sql-fits t mids h =
    let start = length-none_start t in
    omega (
      arith,
      start.0,
      start.1,
      length-statement 13 (none_start t) (map none_row mids) start.0 (none_rows-AllAtMost mids),
      length-map none_row mids,
    )

length-take : (n : ℕ) (cs : List ℕ) → length (take n cs) ≤ n
unfolding take
length-take zero cs = omega arith
length-take (suc n) [] = omega arith
length-take (suc n) (c ∷ cs) = omega (arith, length-take n cs)

length-stored_face : (cs : List ℕ) → length (stored_face cs) ≤ length cs
unfolding stored_face
length-stored_face cs = ground arith

-- The texts of a user that are stored in full come to at most 270 bytes, where those that are escaped
-- count double.
abbrev pub IsShort : UserInfo → Type 0
IsShort info =
    length (codes info.face)
      + length (codes info.vip_label)
      + 2
        * (length (codes info.name)
            + length (codes info.official_desc)
            + length (codes info.official_title))
    ≤ 270

abbrev pub AllShort : List UserInfo → Type 0
AllShort [] = Unit {0}
AllShort (info ∷ infos) = IsShort info × AllShort infos

length-ok_start : (t : Table) → (1 ≤ length (ok_start t)) × (length (ok_start t) ≤ 255)
unfolding ok_start codes
length-ok_start t =
    let rest =
      codes " (`mid`,`name`,`sex`,`face`,`sign`,`level`,"
      ++ (codes "`attention`,`fans`,`vip_status`,`vip_type`,`vip_label`,`official_type`,"
          ++ codes "`official_desc`,`official_role`,`official_title`,`lid`,`is_deleted`) VALUE") in
    (omega arith, omega (arith, length-append (ok_table_name t) rest, (table_name-fits t).0))

-- Every group of rows has a statement that fits into the buffer.
abbrev pub AllSqlFit {ℓ} : {A : Type ℓ} → (List A → List ℕ) → ℕ → List (List A) → Type 0
AllSqlFit sql size [] = Unit {0}
AllSqlFit sql size (c ∷ cs) = (length (sql c) ≤ size) × AllSqlFit sql size cs

none_groups-AllSqlFit :
    (t : Table) (cs : List (List ℤ)) → AllFitting cs → AllSqlFit (none_sql t) none_size cs
none_groups-AllSqlFit t [] h = tt
none_groups-AllSqlFit t (c ∷ cs) h = (none_sql-fits t c h.0.1, none_groups-AllSqlFit t cs h.1)

AllShort-left : (xs ys : List UserInfo) → AllShort (xs ++ ys) → AllShort xs × AllShort ys
AllShort-left [] ys h = (tt, h)
AllShort-left (x ∷ xs) ys h = let rest = AllShort-left xs ys h.1 in ((h.0, rest.0), rest.1)

-- What libmysql documents of mysql_real_escape_string: a byte becomes two at most.
module _ (escape : List ℕ → List ℕ)
    (escape_at_most : (cs : List ℕ) → length (escape cs) ≤ 2 * length cs) where
  length-escape_string : (cs : List ℕ) → length (escape_string escape cs) ≤ 2 * length cs
  unfolding escape_string
  length-escape_string [] = omega arith
  length-escape_string (c ∷ cs) = escape_at_most (c ∷ cs)

  length-append_info_to_sql :
      (info : UserInfo) → IsShort info → length (append_info_to_sql escape info) ≤ 1022
  unfolding append_info_to_sql info_fields codes
  length-append_info_to_sql info h = omega (
    arith,
    length-concat_total (info_fields escape info),
    length-show_u info.mid,
    length-escape_string (codes info.name),
    length-show_d info.sex,
    length-stored_face (codes info.face),
    length-escape_string (take 300 (codes info.sign)),
    length-take 300 (codes info.sign),
    length-show_d info.level,
    length-show_d info.attention,
    length-show_d info.fans,
    length-show_d info.vip_status,
    length-show_d info.vip_type,
    length-show_d info.official_type,
    length-escape_string (codes info.official_desc),
    length-show_d info.official_role,
    length-escape_string (codes info.official_title),
    length-show_u info.lid,
    length-show_d info.is_deleted,
  )

  rows-AllAtMost :
      (infos : List UserInfo)
      → AllShort infos
      → AllAtMost 1022 (map (append_info_to_sql escape) infos)
  rows-AllAtMost [] h = tt
  rows-AllAtMost (info ∷ infos) h = (length-append_info_to_sql info h.0, rows-AllAtMost infos h.1)

  ok_sql-fits :
      (t : Table) (infos : List UserInfo)
      → AllShort infos
      → length infos ≤ records_per_query
      → length (ok_sql escape t infos) ≤ ok_size
  unfolding ok_sql
  ok_sql-fits t infos h k =
      let start = length-ok_start t in
      omega (
        arith,
        start.0,
        start.1,
        length-statement 1022 (ok_start t) (map (append_info_to_sql escape) infos) start.0
            (rows-AllAtMost infos h),
        length-map (append_info_to_sql escape) infos,
      )

  ok_groups-AllSqlFit :
      (t : Table) (cs : List (List UserInfo))
      → AllFitting cs
      → AllShort (flatten cs)
      → AllSqlFit (ok_sql escape t) ok_size cs
  unfolding flatten
  ok_groups-AllSqlFit t [] h k = tt
  ok_groups-AllSqlFit t (c ∷ cs) h k =
      let parts = AllShort-left c (flatten cs) k in
      (ok_sql-fits t c parts.0 h.0.1, ok_groups-AllSqlFit t cs h.1 parts.1)

  -- Where escaping a text at most doubles it: however many rows there are for a table, every
  -- statement for ids without a user fits into its buffer with its last byte, and so does every
  -- statement for users, if for each of them the bytes of face and vip_label, and twice those of
  -- name, official_desc and official_title, come to at most 270.
  pub chunks-AllSqlFit :
      (t : Table) (mids : List ℤ) (infos : List UserInfo)
      → AllShort infos
      → AllSqlFit (none_sql t) none_size (chunks records_per_query [] mids)
        × AllSqlFit (ok_sql escape t) ok_size (chunks records_per_query [] infos)
  chunks-AllSqlFit t mids infos h = (
    none_groups-AllSqlFit t _ (chunks_lem mids).1,
    ok_groups-AllSqlFit t _ (chunks_lem infos).1 (subst AllShort (sym (chunks_lem infos).0) h),
  )
