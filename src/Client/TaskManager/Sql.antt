-- ===== src/Client/TaskManager/Sql.antt =====
-- The texts that writeOkToDb_ and writeNoneToDb_ of
-- BiliUserSpiderClient/src/manager/task_manager.cpp put into their buffers, and the sizes of these.
-- `escape` is mysql_real_escape_string, which is libmysql's.
pub mod Fits
use bili_user_spider.Prelude.{ℕ, zero, suc, ◌*◌, List, [], ◌∷◌, ◌++◌, map, none, some, String, ℤ}
use bili_user_spider.Sql.{codes, show_u, show_d, concat, statement}
use bili_user_spider.Server.Util.Split.{cut}
use bili_user_spider.Client.Types.{UserInfo, Table}
use bili_user_spider.Client.TaskManager.Write.{records_per_query}

-- The names of the tables of the two kinds, and the sizes of their buffers.
unfoldable pub table_name : String → Table → List ℕ
table_name kind t = codes kind ++ (show_u t.start ++ (codes "_" ++ show_u t.end))

abbrev pub ok_table_name : Table → List ℕ
ok_table_name = table_name "mid_"

abbrev pub none_table_name : Table → List ℕ
none_table_name = table_name "mid_none_"

abbrev pub ok_name_size : ℕ
ok_name_size = 32

abbrev pub none_name_size : ℕ
none_name_size = 64

-- `substr(0, n)`.
unfoldable pub take : ℕ → List ℕ → List ℕ
take zero cs = []
take (suc n) [] = []
take (suc n) (c ∷ cs) = c ∷ take n cs

-- The picture that everyone has is stored as none.
unfoldable pub stored_face : List ℕ → List ℕ
stored_face face = elim (cut (codes "noface.jpg") face) [ none ↦ face | some _ ↦ [] ]

unfoldable pub ok_start : Table → List ℕ
ok_start table =
    codes "INSERT IGNORE INTO "
    ++ (ok_table_name table
        ++ (codes " (`mid`,`name`,`sex`,`face`,`sign`,`level`,"
            ++ (codes "`attention`,`fans`,`vip_status`,`vip_type`,`vip_label`,`official_type`,"
                ++ codes
                    "`official_desc`,`official_role`,`official_title`,`lid`,`is_deleted`) VALUE")))

module _ (escape : List ℕ → List ℕ) where
  -- `escapeString` does not call the library for an empty text.
  unfoldable pub escape_string : List ℕ → List ℕ
  escape_string [] = []
  escape_string (c ∷ cs) = escape (c ∷ cs)

  -- The fields of appendInfoToSql_ in the order of its format.
  unfoldable pub info_fields : UserInfo → List (List ℕ)
  info_fields info =
      codes "("
      ∷ show_u info.mid
      ∷ codes ",'"
      ∷ escape_string (codes info.name)
      ∷ codes "',"
      ∷ show_d info.sex
      ∷ codes ",'"
      ∷ stored_face (codes info.face)
      ∷ codes "','"
      ∷ escape_string (take 300 (codes info.sign))
      ∷ codes "',"
      ∷ show_d info.level
      ∷ codes ","
      ∷ show_d info.attention
      ∷ codes ","
      ∷ show_d info.fans
      ∷ codes ","
      ∷ show_d info.vip_status
      ∷ codes ","
      ∷ show_d info.vip_type
      ∷ codes ",'"
      ∷ codes info.vip_label
      ∷ codes "',"
      ∷ show_d info.official_type
      ∷ codes ",'"
      ∷ escape_string (codes info.official_desc)
      ∷ codes "',"
      ∷ show_d info.official_role
      ∷ codes ",'"
      ∷ escape_string (codes info.official_title)
      ∷ codes "',"
      ∷ show_u info.lid
      ∷ codes ","
      ∷ show_d info.is_deleted
      ∷ codes "),"
      ∷ []

  unfoldable pub append_info_to_sql : UserInfo → List ℕ
  append_info_to_sql info = concat (info_fields info)

  unfoldable pub ok_sql : Table → List UserInfo → List ℕ
  ok_sql table infos = statement (ok_start table) (map append_info_to_sql infos)

abbrev pub ok_size : ℕ
ok_size = 1024 * records_per_query

unfoldable pub none_row : ℤ → List ℕ
none_row mid = codes "(" ++ (show_u mid ++ codes "),")

unfoldable pub none_start : Table → List ℕ
none_start table = codes "INSERT IGNORE INTO " ++ (none_table_name table ++ codes " (`mid`) VALUE")

unfoldable pub none_sql : Table → List ℤ → List ℕ
none_sql table mids = statement (none_start table) (map none_row mids)

abbrev pub none_size : ℕ
none_size = 128 * records_per_query
