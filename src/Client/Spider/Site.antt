-- ===== src/Client/Spider/Site.antt =====
-- The crawling thread on the site itself: the calls of bili/user.cpp in the place of the parameter of
-- `Client.Spider`, and what that makes of a sub task that is brought back.
use mathlib.Core.Path.{sym, subst}
use bili_user_spider.Prelude.{
  ◌⊎◌, ℕ, ◌+◌, ◌≡◌, refl, List, some, false, arith, Bool-cases, inl, inr, ℤ, pos, ◌==ℤ◌,
}
use bili_user_spider.Prelude.Ranges.{occurrences}
use bili_user_spider.Prelude.OrdMap.{find}
use bili_user_spider.Client.Types.{UserInfo, MainTask, Outside}
use bili_user_spider.Client.ProxyManager.Proxies.{ProxyData, Pool}
use bili_user_spider.Client.ProxyManager.Db.{ProxyDb}
use bili_user_spider.Client.User.Reply.{WebUser, AppUser, Response}
use bili_user_spider.Client.User.{
  get_user_info_web, get_user_info_app, parse_web, parse_app, found, absent,
}
use bili_user_spider.Client.User.Laws.{get_user_info_web_lem, get_user_info_app-found}
use bili_user_spider.Client.User.Answers.{
  Denies, get_user_info_web-reads, get_user_info_app-reads, get_user_info_web-Denies,
  get_user_info_app-Denies,
}
use bili_user_spider.Client.User.Fields.{no_error}
use bili_user_spider.Client.Spider.Answers.{All, IsGivenUp, crawl_mids-HasAnswers}
use bili_user_spider.Client.TaskManager.Places.{uncrawled}
use bili_user_spider.Client.TaskManager.Rounds.{commit_sub_task-uncrawled}
use bili_user_spider.Client.Spider.{Crawl, Batch, done, get_user_info, crawl_mids}
use bili_user_spider.Client.Spider.Laws.{FindsAsked, mids_of, in_batch, crawl_mids-in_batch}
use bili_user_spider.Client.Spider.Threads.{no_results, System, commit}

-- The site and the rest of the client: the next number of `rand`, the answers to a request through a
-- proxy, and what others do to the pool and the database before the next call.
pub record Site (db : ProxyDb) : Type 0 where
  pub rand : db.World → ℕ
  pub web : db.World → ℤ → ProxyData → Response WebUser
  pub app : db.World → ℤ → ProxyData → Response AppUser
  pub others : Pool × db.World → Pool × db.World
  pub mid_max_error_times : db.World → ℤ
  pub bili_api_type : db.World → ℤ
  pub blank : UserInfo

module _ (db : ProxyDb) (site : Site db) where
  abbrev pub on_site : Crawl
  on_site = record {
    World = Pool × db.World;
    force_stop = λ w. db.force_stop w.1;
    mid_max_error_times = λ w. site.mid_max_error_times w.1;
    bili_api_type = λ w. site.bili_api_type w.1;
    get_user_info_web = λ mid info w.
        let (m, v) = site.others w in
        get_user_info_web db (site.rand v) (site.web v mid) mid info m v;
    get_user_info_app = λ mid info w.
        let (m, v) = site.others w in
        get_user_info_app db (site.rand v) (site.app v mid) mid info m v;
    blank = site.blank;
  }

  on_site-FindsAsked : FindsAsked (get_user_info on_site)
  unfolding get_user_info
  on_site-FindsAsked mid info w (m', v') info' h =
      let (m, v) = site.others w in
      elim (Bool-cases (site.bili_api_type w.1 ==ℤ pos 0)) [
        | inl e ↦
            (get_user_info_web_lem db (site.rand v) (site.web v mid) mid info m v m' v' info' _
                (ground (arith, e, h))).0
              refl
        | inr e ↦
            get_user_info_app-found db (site.rand v) (site.app v mid) mid info m v m' v' info'
              (ground (arith, e, h))
      ]

  -- A user as a reply of the site to a request for its id describes it.
  abbrev pub IsGiven : UserInfo → Type 0
  IsGiven info =
      (v : db.World) × (old : UserInfo) × (p : ProxyData) × ((parse_web info.mid
            (site.web v info.mid p) old
          ≡ some (info, no_error))
        ⊎ (parse_app info.mid (site.app v info.mid p) old ≡ some (info, no_error)))

  -- A reply of the site to a request for an id says that there is no such user.
  abbrev pub IsDenied : ℤ → Type 0
  IsDenied mid =
      (v : db.World) × (p : ProxyData) × (Denies (site.web v mid p) ⊎ Denies (site.app v mid p))

  on_site-IsGiven :
      (mid : ℤ) (info : UserInfo) (w w' : Pool × db.World) (info' : UserInfo)
      → get_user_info on_site mid info w ≡ some (w', info', found)
      → IsGiven info'
  unfolding get_user_info
  on_site-IsGiven mid info w w' info' h =
      let (m, v) = site.others w in
      let same : mid ≡ info'.mid = sym (on_site-FindsAsked mid info w w' info' h) in
      elim (Bool-cases (site.bili_api_type w.1 ==ℤ pos 0)) [
        | inl e ↦
            let (p, reads) =
              get_user_info_web-reads db (site.rand v) (site.web v mid) mid info m v w' info'
                (ground (arith, e, h)) in
            (
              v,
              info,
              p,
              inl (
                  subst (λ x. parse_web x (site.web v x p) info ≡ some (info', no_error)) same
                    reads),
            )
        | inr e ↦
            let (p, reads) =
              get_user_info_app-reads db (site.rand v) (site.app v mid) mid info m v w' info'
                (ground (arith, e, h)) in
            (
              v,
              info,
              p,
              inr (
                  subst (λ x. parse_app x (site.app v x p) info ≡ some (info', no_error)) same
                    reads),
            )
      ]

  on_site-IsDenied :
      (mid : ℤ) (info : UserInfo) (w w' : Pool × db.World) (info' : UserInfo)
      → get_user_info on_site mid info w ≡ some (w', info', absent)
      → IsDenied mid
  unfolding get_user_info
  on_site-IsDenied mid info w w' info' h =
      let (m, v) = site.others w in
      elim (Bool-cases (site.bili_api_type w.1 ==ℤ pos 0)) [
        | inl e ↦
            let (p, denies) =
              get_user_info_web-Denies db (site.rand v) (site.web v mid) mid info m v w' info'
                (ground (arith, e, h)) in
            (v, p, inl denies)
        | inr e ↦
            let (p, denies) =
              get_user_info_app-Denies db (site.rand v) (site.app v mid) mid info m v w' info'
                (ground (arith, e, h)) in
            (v, p, inr denies)
      ]

  -- A thread that crawls its sub task to the end, without a forced stop, and brings it back, where
  -- the main task is still there: every user in its results is as a reply of the site to a request
  -- for its id describes it; of every id without a user such a reply says so, with the code -404 or
  -- -400; and for every id that it gives up as many calls in a row as are allowed have failed. Of
  -- each id, exactly these users and the ids without one wait no longer, and no other id changes.
  pub commit-crawled :
      (out : Outside) (s : System out) (i fuel : ℕ) (m id main_task_id : ℤ) (mids : List ℤ)
      (main : MainTask) (w w' : Pool × db.World) (b : Batch)
      → find id s.tasks.sub_tasks ≡ some (record { main_task_id = main_task_id; mids = mids })
      → find main_task_id s.tasks.main_tasks ≡ some main
      → crawl_mids on_site fuel mids no_results w ≡ done (w', b)
      → db.force_stop w'.1 ≡ false
      → All IsGiven b.infos
        × All IsDenied b.none_mids
        × All (IsGivenUp on_site) b.error_mids
        × (uncrawled m (commit out i id b s).tasks
              + (occurrences m (mids_of b.infos) + occurrences m b.none_mids)
            ≡ uncrawled m s.tasks)
  unfolding commit in_batch occurrences mids_of
  commit-crawled out s i fuel m id main_task_id mids main w w' b held is_there crawled on =
      let placed =
        crawl_mids-in_batch on_site fuel mids m no_results b w w' on_site-FindsAsked crawled on in
      let back =
        commit_sub_task-uncrawled out m id b.infos b.none_mids b.error_mids s.tasks
          (record { main_task_id = main_task_id; mids = mids }) main held is_there in
      let answers =
        crawl_mids-HasAnswers on_site IsGiven IsDenied on_site-IsGiven on_site-IsDenied fuel mids
          no_results b w w' (record { infos = tt; none_mids = tt; error_mids = tt }) crawled in
      (answers.infos, answers.none_mids, answers.error_mids, omega (arith, placed, back))
