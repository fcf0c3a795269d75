-- ===== src/Server/Json.antt =====
-- The members of the task archive data/task.json that the server reads and writes, and the JSON
-- library, which is not part of the repository, as a parameter.
use bili_user_spider.Prelude.{List, Option, ℤ}

-- `none` stands for a member that is missing or null, which `checkNull` does not tell apart.
pub record TaskNode : Type 0 where
  pub start : Option ℤ
  pub end : Option ℤ

pub record Document : Type 0 where
  pub task_id_current : Option ℤ
  pub mid_current : Option ℤ
  pub mid_end : Option ℤ
  pub tasks : Option (List TaskNode)

-- `Json::Reader::parse` and `Json::Value::toStyledString`, on the text of a file.
pub record JsonText : Type 1 where
  pub Text : Type 0
  pub parse : Text → Option Document
  pub to_styled_string : Document → Text
