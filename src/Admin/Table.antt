-- ===== src/Admin/Table.antt =====
-- The table of the clients: Admin/src/client/spider_client_info.h and .cpp, and showClientsInfo of
-- Admin/src/spidermanager.cpp. A speed is a whole number of thousandths: the server sends it so, the
-- division by 1000.0 keeps the order, and the table shows three places.
pub mod Laws
use bili_user_spider.Prelude.{
  List, [], ◌∷◌, Option, none, some, Bool, true, false, not, if◌then◌else◌, String, ℤ, pos, ◌+ℤ◌,
  ◌-ℤ◌, ltb_ℤ, ◌==ℤ◌,
}
use bili_user_spider.Prelude.OrdMap.{OrdMap, find, emplace, assign}
use bili_user_spider.Admin.Sort.{sort, lt_text}

pub record SpiderClientInfo : Type 0 where
  pub id : ℤ
  pub threads : ℤ
  pub count : ℤ
  pub join_time : ℤ
  pub average_speed : ℤ
  pub average_speed_3m : ℤ
  pub average_speed_5m : ℤ
  pub average_speed_10m : ℤ
  pub average_speed_30m : ℤ
  pub os : String
  pub host : String

-- What a sort goes by: a member of a client, as a number or as a text.
pub data Key : Type 0 where
  number : (SpiderClientInfo → ℤ) → Key
  text : (SpiderClientInfo → String) → Key

-- The eleven pairs of comparisons, the ascending one first.
unfoldable pub compares : Key → Bool → SpiderClientInfo → SpiderClientInfo → Bool
compares (number key) true a b = ltb_ℤ (key a) (key b)
compares (number key) false a b = ltb_ℤ (key b) (key a)
compares (text key) true a b = lt_text (key a) (key b)
compares (text key) false a b = lt_text (key b) (key a)

-- The column of the header that was clicked; no other can be.
pub data Column : Type 0 where
  id host os run_time threads count speed_3m speed_5m speed_10m speed_30m speed : Column

unfoldable pub key_of : Column → Key
key_of id = number (λ info. info.id)
key_of host = text (λ info. info.host)
key_of os = text (λ info. info.os)
key_of run_time = number (λ info. info.join_time)
key_of threads = number (λ info. info.threads)
key_of count = number (λ info. info.count)
key_of speed_3m = number (λ info. info.average_speed_3m)
key_of speed_5m = number (λ info. info.average_speed_5m)
key_of speed_10m = number (λ info. info.average_speed_10m)
key_of speed_30m = number (λ info. info.average_speed_30m)
key_of speed = number (λ info. info.average_speed)

-- `qRgb(178, 40, 40)` and `qRgb(68, 150, 79)`.
pub data Colour : Type 0 where
  red green : Colour

-- One of the five speeds: the last ones by client, and whether a change is coloured.
pub record Speeds : Type 0 where
  pub last : OrdMap ℤ
  pub enable_color : Bool

abbrev pub Item : Type 0
Item = ℤ × Option Colour

unfoldable pub show_speed : Bool → ℤ → ℤ → Speeds → Item × Speeds
show_speed is_new client_id v s =
    if is_new
    then elim (find client_id s.last) [
      | none ↦ ((v, none), record s { last = emplace client_id v s.last })
      | some old ↦ (
        (v, if s.enable_color then some (if ltb_ℤ old v then red else green) else none),
        record s { last = assign client_id v s.last },
      )
    ]
    else ((v, none), s)

pub record AllSpeeds : Type 0 where
  pub of_3m : Speeds
  pub of_5m : Speeds
  pub of_10m : Speeds
  pub of_30m : Speeds
  pub of_all : Speeds

-- A row: the client, how long it runs, and the items of its speeds.
pub record Row : Type 0 where
  pub info : SpiderClientInfo
  pub run_time : ℤ
  pub speed_3m : Item
  pub speed_5m : Item
  pub speed_10m : Item
  pub speed_30m : Item
  pub speed : Item

unfoldable pub show_row : Bool → ℤ → SpiderClientInfo → AllSpeeds → Row × AllSpeeds
show_row is_new now info s =
    let (item_3m, of_3m) = show_speed is_new info.id info.average_speed_3m s.of_3m in
    let (item_5m, of_5m) = show_speed is_new info.id info.average_speed_5m s.of_5m in
    let (item_10m, of_10m) = show_speed is_new info.id info.average_speed_10m s.of_10m in
    let (item_30m, of_30m) = show_speed is_new info.id info.average_speed_30m s.of_30m in
    let (item, of_all) = show_speed is_new info.id info.average_speed s.of_all in
    (
      record {
        info = info;
        run_time = now -ℤ info.join_time;
        speed_3m = item_3m;
        speed_5m = item_5m;
        speed_10m = item_10m;
        speed_30m = item_30m;
        speed = item;
      },
      record { of_3m = of_3m; of_5m = of_5m; of_10m = of_10m; of_30m = of_30m; of_all = of_all },
    )

unfoldable pub show_rows : Bool → ℤ → List SpiderClientInfo → AllSpeeds → List Row × AllSpeeds
show_rows is_new now [] s = ([], s)
show_rows is_new now (info ∷ infos) s =
    let (row, s') = show_row is_new now info s in
    let (rows, s'') = show_rows is_new now infos s' in (row ∷ rows, s'')

-- The last row.
pub record Totals : Type 0 where
  pub clients : ℤ
  pub threads : ℤ
  pub count : ℤ
  pub speed_3m : ℤ
  pub speed_5m : ℤ
  pub speed_10m : ℤ
  pub speed_30m : ℤ
  pub speed : ℤ

abbrev pub no_totals : Totals
no_totals = record {
  clients = pos 0;
  threads = pos 0;
  count = pos 0;
  speed_3m = pos 0;
  speed_5m = pos 0;
  speed_10m = pos 0;
  speed_30m = pos 0;
  speed = pos 0;
}

unfoldable pub add_client : SpiderClientInfo → Totals → Totals
add_client info t = record {
  clients = t.clients +ℤ pos 1;
  threads = t.threads +ℤ info.threads;
  count = t.count +ℤ info.count;
  speed_3m = t.speed_3m +ℤ info.average_speed_3m;
  speed_5m = t.speed_5m +ℤ info.average_speed_5m;
  speed_10m = t.speed_10m +ℤ info.average_speed_10m;
  speed_30m = t.speed_30m +ℤ info.average_speed_30m;
  speed = t.speed +ℤ info.average_speed;
}

unfoldable pub totals : List SpiderClientInfo → Totals → Totals
totals [] t = t
totals (info ∷ infos) t = totals infos (add_client info t)

-- `is_locked` says that the menu of a row holds `mutexForClientsInfo`.
pub record Table : Type 0 where
  pub clients_info : List SpiderClientInfo
  pub sort_col : Column
  pub is_asc : Bool
  pub is_locked : Bool
  pub speeds : AllSpeeds
  pub rows : List Row
  pub total : Option Totals

unfoldable pub show_clients_info : Bool → ℤ → Table → Table
show_clients_info is_new now t =
    let infos = sort (compares (key_of t.sort_col) t.is_asc) t.clients_info in
    let (rows, speeds) = show_rows is_new now infos t.speeds in
    if t.is_locked then t else record t {
      clients_info = infos;
      rows = rows;
      speeds = speeds;
      total = some (totals infos no_totals);
    }

unfoldable pub is_same : Column → Column → Bool
is_same id id = true
is_same host host = true
is_same os os = true
is_same run_time run_time = true
is_same threads threads = true
is_same count count = true
is_same speed_3m speed_3m = true
is_same speed_5m speed_5m = true
is_same speed_10m speed_10m = true
is_same speed_30m speed_30m = true
is_same speed speed = true
is_same _ _ = false

-- `col < 3`.
unfoldable pub is_text_col : Column → Bool
is_text_col id = true
is_text_col host = true
is_text_col os = true
is_text_col _ = false

unfoldable pub on_horizontal_header_clicked : Column → ℤ → Table → Table
on_horizontal_header_clicked col now t = show_clients_info false now (record t {
  is_asc = if is_same col t.sort_col then not t.is_asc else is_text_col col;
  sort_col = col;
})

unfoldable pub toggle : Speeds → Speeds
toggle s = record s { enable_color = not s.enable_color }

-- The signal that follows asks for the clients anew.
unfoldable pub on_horizontal_header_double_clicked : Column → Table → Table
on_horizontal_header_double_clicked speed_3m t = record t {
  speeds = record t.speeds { of_3m = toggle t.speeds.of_3m };
}
on_horizontal_header_double_clicked speed_5m t = record t {
  speeds = record t.speeds { of_5m = toggle t.speeds.of_5m };
}
on_horizontal_header_double_clicked speed_10m t = record t {
  speeds = record t.speeds { of_10m = toggle t.speeds.of_10m };
}
on_horizontal_header_double_clicked speed_30m t = record t {
  speeds = record t.speeds { of_30m = toggle t.speeds.of_30m };
}
on_horizontal_header_double_clicked speed t = record t {
  speeds = record t.speeds { of_all = toggle t.speeds.of_all };
}
on_horizontal_header_double_clicked _ t = t

unfoldable pub clear_contents : Table → Table
clear_contents t = record t { rows = []; total = none }
