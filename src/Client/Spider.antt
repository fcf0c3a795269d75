-- ===== src/Client/Spider.antt =====
-- What a crawling thread does with a sub task: `spiderThread` of
-- BiliUserSpiderClient/src/biliuser_spider.cpp.
pub mod Laws
pub mod Answers
pub mod Threads
pub mod Process
pub mod Calls
pub mod Site
use bili_user_spider.Prelude.{
  ℕ, zero, suc, List, [], ◌∷◌, ◌++◌, Option, none, some, Bool, true, false, not, ◌&&◌,
  if◌then◌else◌, ℤ, pos, ◌+ℤ◌, ltb_ℤ, ◌==ℤ◌,
}
use bili_user_spider.Client.Types.{UserInfo}
use bili_user_spider.Client.User.{Outcome, found, absent, failed}

-- What the thread reads and calls: the flag `g_forceStop`, two numbers of `g_clientConfig`, and the
-- two calls of the site, of which `none` is the end of the process, by a division by zero or a number
-- that does not fit. `blank` is the content of a new
-- `UserInfo`.
pub record Crawl : Type 1 where
  pub World : Type 0
  pub force_stop : World → Bool
  pub mid_max_error_times : World → ℤ
  pub bili_api_type : World → ℤ
  pub get_user_info_web : ℤ → UserInfo → World → Option (World × UserInfo × Outcome)
  pub get_user_info_app : ℤ → UserInfo → World → Option (World × UserInfo × Outcome)
  pub blank : UserInfo

-- The three lists that the thread fills.
pub record Batch : Type 0 where
  pub infos : List UserInfo
  pub none_mids : List ℤ
  pub error_mids : List ℤ

-- How a loop ends.
pub data Run (A : Type 0) : Type 0 where
  done : A → Run A
  crashed out_of_fuel : Run A

module _ (c : Crawl) where
  open c use {
    World, force_stop, mid_max_error_times, bili_api_type, get_user_info_web, get_user_info_app,
    blank,
  }

  unfoldable pub get_user_info : ℤ → UserInfo → World → Option (World × UserInfo × Outcome)
  get_user_info mid info w =
      if bili_api_type w ==ℤ pos 0
      then get_user_info_web mid info w
      else get_user_info_app mid info w

  unfoldable pub may_try : ℤ → World → Bool
  may_try i w = ltb_ℤ i (mid_max_error_times w) && not (force_stop w)

  -- The attempts from number `i` on, with `hasError` at their end.
  unfoldable pub attempts : ℕ → ℤ → ℤ → UserInfo → Batch → World → Run (World × Batch × Bool)
  attempts zero i mid info b w = out_of_fuel
  attempts (suc fuel) i mid info b w = elim (may_try i w) [
    | false ↦ done (w, b, true)
    | true ↦ elim (get_user_info mid info w) [
      | none ↦ crashed
      | some (w', info', found) ↦ done (w', record b { infos = b.infos ++ info' ∷ [] }, false)
      | some (w', info', absent) ↦
          done (w', record b { none_mids = b.none_mids ++ mid ∷ [] }, false)
      | some (w', info', failed) ↦ attempts fuel (i +ℤ pos 1) mid info' b w'
    ]
  ]

  -- One user.
  unfoldable pub crawl_mid : ℕ → ℤ → Batch → World → Run (World × Batch)
  crawl_mid fuel mid b w = elim (attempts fuel (pos 0) mid blank b w) [
    | crashed ↦ crashed
    | out_of_fuel ↦ out_of_fuel
    | done (w', b', has_error) ↦ done (
      w',
      if not (force_stop w') && has_error
          then record b' { error_mids = b'.error_mids ++ mid ∷ [] }
          else b',
    )
  ]

  -- The loop over `mids`, which `g_forceStop` ends.
  unfoldable pub crawl_mids : ℕ → List ℤ → Batch → World → Run (World × Batch)
  crawl_mids fuel [] b w = done (w, b)
  crawl_mids fuel (mid ∷ mids) b w = elim (crawl_mid fuel mid b w) [
    | crashed ↦ crashed
    | out_of_fuel ↦ out_of_fuel
    | done (w', b') ↦ elim (force_stop w') [
      | true ↦ done (w', b')
      | false ↦ crawl_mids fuel mids b' w'
    ]
  ]
