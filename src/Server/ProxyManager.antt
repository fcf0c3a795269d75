-- ===== src/Server/ProxyManager.antt =====
-- The server's proxy manager, BiliUserSpiderServer/src/manager/proxy_manager.h and .cpp: the threads
-- that fetch proxies from a provider, and how they are started and stopped. The provider's reply, the
-- database and `atoi` are not part of the repository.
pub mod Laws
pub mod Lifecycle
pub mod Sql
use text.Mathlib.Text.{◌==◌ as str_eq}
use bili_user_spider.Prelude.{
  ℕ, zero, suc, ◌+◌, List, [], ◌∷◌, Option, none, some, Bool, true, false, if◌then◌else◌, ltb,
  String, ℤ,
}

-- A member of `data`; `none` is a member that is missing or null. The port comes as a text.
pub record Entry : Type 0 where
  pub ip : Option String
  pub port : Option String

-- A reply of the provider: the root of its document, and whether its request succeeded with 200.
pub record Reply (Code : Type 0) : Type 0 where
  pub is_ok : Bool
  pub json : Option (Option Code × Option (List Entry))

pub record ProxyData : Type 0 where
  pub host : String
  pub port : ℤ

-- What a reply means for the thread.
pub data Verdict : Type 0 where
  unreachable unreadable refused too_often unusable : Verdict
  proxies : List ProxyData → Verdict

-- INSERT IGNORE of proxies, and DELETE of those with more errors.
pub data Statement : Type 0 where
  insert : List ProxyData → Statement
  delete_above : ℤ → Statement

-- `get_connection` takes a connection from the pool, and is true for a bad one.
pub record Outside : Type 1 where
  pub World : Type 0
  pub atoi : String → ℤ
  pub get_connection : World → World × Bool
  pub mysql_query : Statement → World → World × Bool
  pub proxy_max_error_times : World → ℤ

-- The loop over `data`; an entry without a member ends it.
unfoldable pub read_entries : (String → ℤ) → List Entry → Option (List ProxyData)
read_entries atoi [] = some []
read_entries atoi (e ∷ es) = elim e.port [
  | none ↦ none
  | some port ↦ elim e.ip [
    | none ↦ none
    | some ip ↦ elim (read_entries atoi es) [
      | none ↦ none
      | some ps ↦ some ((record { host = ip; port = atoi port }) ∷ ps)
    ]
  ]
]

unfoldable pub read_data : (String → ℤ) → Option (List Entry) → Verdict
read_data atoi none = unusable
read_data atoi (some []) = unusable
read_data atoi (some (e ∷ es)) = elim (read_entries atoi (e ∷ es)) [
  | none ↦ unusable
  | some ps ↦ proxies ps
]

-- The codes of the two providers: `none` goes on to `data`.
unfoldable pub ai_er_yun_code : String → Option Verdict
ai_er_yun_code code =
    if str_eq code "0" then none else if str_eq code "10130" then some too_often else some refused

unfoldable pub qing_ting_code : Bool → Option Verdict
qing_ting_code code = if code then some refused else none

unfoldable pub verdict :
    {Code : Type 0} → (Code → Option Verdict) → (String → ℤ) → Reply Code → Verdict
verdict check atoi r =
    if r.is_ok
    then elim r.json [
      | none ↦ unreadable
      | some (none, _) ↦ unreadable
      | some (some code, entries) ↦ elim (check code) [ some v ↦ v | none ↦ read_data atoi entries ]
    ]
    else unreachable

module _ (out : Outside) where
  open out use {World, get_connection, mysql_query, proxy_max_error_times}

  -- At most `tries` times.
  unfoldable pub exec : ℕ → Statement → World → World × Bool
  exec zero sql w = (w, false)
  exec (suc tries) sql w =
      let (w1, bad) = get_connection w in
      let (w2, done) = mysql_query sql w1 in
      let skipped = exec tries sql w1 in
      let again = exec tries sql w2 in if bad then skipped else if done then (w2, true) else again

  unfoldable pub add_proxies : List ProxyData → World → World × Bool
  add_proxies ps = exec 5 (insert ps)

  unfoldable pub remove_proxies : World → World × Bool
  remove_proxies w = exec 5 (delete_above (proxy_max_error_times w)) w

  -- `if (errorCount++ > 10) break`.
  unfoldable pub count_error : ℕ → Option ℕ
  count_error errors = if ltb 10 errors then none else some (errors + 1)

  -- The rest of a round: the new `errorCount`, or `none` where the thread leaves its loop.
  unfoldable pub settle : Verdict → ℕ → World → World × Option ℕ
  settle unreachable errors w = (w, count_error errors)
  settle refused errors w = (w, count_error errors)
  settle unreadable errors w = (w, some errors)
  settle too_often errors w = (w, some errors)
  settle unusable errors w = (w, some (errors + 1))
  settle (proxies ps) errors w =
      let (w1, added) = add_proxies ps w in
      let (w2, removed) = remove_proxies w1 in
      if added then (if removed then (w2, some 0) else (w2, none)) else (w1, none)

  -- One round of a thread, and its rounds while the server runs; `none` where it has left its loop.
  unfoldable pub round :
      {Code : Type 0} → (Code → Option Verdict) → Reply Code → ℕ → World → World × Option ℕ
  round check r errors w = settle (verdict check out.atoi r) errors w

  unfoldable pub rounds :
      {Code : Type 0} → (Code → Option Verdict) → List (Reply Code) → ℕ → World → World × Option ℕ
  rounds check [] errors w = (w, some errors)
  rounds check (r ∷ rs) errors w =
      let (w', count) = round check r errors w in
      elim count [ none ↦ (w', none) | some errors' ↦ rounds check rs errors' w' ]

  unfoldable pub ai_er_yun : List (Reply String) → ℕ → World → World × Option ℕ
  ai_er_yun = rounds ai_er_yun_code

  unfoldable pub qing_ting : List (Reply Bool) → ℕ → World → World × Option ℕ
  qing_ting = rounds qing_ting_code
