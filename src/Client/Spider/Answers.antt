-- ===== src/Client/Spider/Answers.antt =====
-- The lists that the crawling thread fills against the answers that it had: `spiderThread` of
-- BiliUserSpiderClient/src/biliuser_spider.cpp.
use mathlib.Core.Path.{subst}
use bili_user_spider.Prelude.{
  ℕ, zero, suc, ◌≡◌, refl, List, [], ◌∷◌, ◌++◌, Option-cases, some, Bool, true, false, arith,
  Bool-cases, inl, inr, ℤ, pos, ◌≤ℤ◌, +ℤ_parts,
}
use bili_user_spider.Client.Types.{UserInfo}
use bili_user_spider.Client.User.{found, absent, failed}
use bili_user_spider.Client.Spider.{
  Crawl, Batch, done, get_user_info, may_try, attempts, crawl_mid, crawl_mids,
}
use bili_user_spider.Client.Spider.Laws.{Run-cases}

abbrev pub All : {A : Type 0} → (A → Type 0) → List A → Type 0
All P [] = Unit {0}
All P (x ∷ xs) = P x × All P xs

All-snoc :
    {A : Type 0} (P : A → Type 0) (xs : List A) (x : A) → All P xs → P x → All P (xs ++ x ∷ [])
All-snoc P [] x all p = (p, tt)
All-snoc P (y ∷ xs) x all p = (all.0, All-snoc P xs x all.1 p)

module _ (c : Crawl) where
  open c use {World, force_stop, mid_max_error_times}

  -- So many calls for a user in a row, of which every one fails.
  pub data Fails (mid : ℤ) (info : UserInfo) (w : World) : ℕ → UserInfo → World → Type 0 where
    none_yet : Fails mid info w 0 info w
    once_more :
        {n : ℕ} {info1 info2 : UserInfo} {w1 w2 : World}
        → Fails mid info w n info1 w1
        → get_user_info c mid info1 w1 ≡ some (w2, info2, failed)
        → Fails mid info w (suc n) info2 w2

  -- The calls for a user that the thread gives up have failed as often as is allowed.
  pub record IsGivenUp (mid : ℤ) : Type 0 where
    pub n : ℕ
    pub first : World
    pub last : World
    pub info : UserInfo
    pub fails : Fails mid c.blank first n info last
    pub enough : mid_max_error_times last ≤ℤ pos n

  module _ (P : UserInfo → Type 0) (Q : ℤ → Type 0)
      (is_found : (mid : ℤ) (info : UserInfo) (w w' : World) (info' : UserInfo)
        → get_user_info c mid info w ≡ some (w', info', found)
        → P info')
      (is_absent : (mid : ℤ) (info : UserInfo) (w w' : World) (info' : UserInfo)
        → get_user_info c mid info w ≡ some (w', info', absent)
        → Q mid) where
    -- Each list holds what it is for.
    pub record HasAnswers (b : Batch) : Type 0 where
      pub infos : All P b.infos
      pub none_mids : All Q b.none_mids
      pub error_mids : All IsGivenUp b.error_mids

    attempts-HasAnswers :
        (fuel n : ℕ) (mid : ℤ) (info : UserInfo) (b b' : Batch) (first w w' : World)
        (has_error : Bool)
        → Fails mid c.blank first n info w
        → HasAnswers b
        → attempts c fuel (pos n) mid info b w ≡ done (w', b', has_error)
        → HasAnswers b'
          × (has_error ≡ true
              → (k : ℕ) × (info' : UserInfo) × Fails mid c.blank first k info' w'
                × (may_try c (pos k) w' ≡ false))
    unfolding attempts
    attempts-HasAnswers zero n mid info b b' first w w' e fails s h = absurd (ground arith)
    attempts-HasAnswers (suc fuel) n mid info b b' first w w' e fails s h =
        elim (Bool-cases (may_try c (pos n) w)) [
          | inr k ↦
              let same_b : b ≡ b' = ground (arith, k, h) in
              let same_w : w ≡ w' = ground (arith, k, h) in
              (
                subst HasAnswers same_b s,
                λ gave_up.
                    let (all_fail, no_more) =
                      subst (λ v. Fails mid c.blank first n info v × (may_try c (pos n) v ≡ false))
                        same_w (fails, k) in
                    (n, info, all_fail, no_more),
              )
          | inl k ↦ elim (Option-cases (get_user_info c mid info w)) [
            | inl g ↦ absurd (ground (arith, k, g, h))
            | inr ((w1, info1, found), g) ↦
                let filed : record b { infos = b.infos ++ info1 ∷ [] } ≡ b' =
                  ground (arith, k, g, h) in
                (
                  subst HasAnswers filed (record {
                    none_mids = s.none_mids;
                    error_mids = s.error_mids;
                    infos = All-snoc P b.infos info1 s.infos (is_found mid info w w1 info1 g);
                  }),
                  ground (arith, k, g, h),
                )
            | inr ((w1, info1, absent), g) ↦
                let filed : record b { none_mids = b.none_mids ++ mid ∷ [] } ≡ b' =
                  ground (arith, k, g, h) in
                (
                  subst HasAnswers filed (record {
                    infos = s.infos;
                    error_mids = s.error_mids;
                    none_mids =
                        All-snoc Q b.none_mids mid s.none_mids (is_absent mid info w w1 info1 g);
                  }),
                  ground (arith, k, g, h),
                )
            | inr ((w1, info1, failed), g) ↦
                attempts-HasAnswers fuel (suc n) mid info1 b b' first w1 w' e (once_more fails g) s
                  (ground (arith, k, g, h, +ℤ_parts (pos n) (pos 1)))
          ]
        ]

    enough :
        (n : ℕ) (w : World)
        → force_stop w ≡ false
        → may_try c (pos n) w ≡ false
        → mid_max_error_times w ≤ℤ pos n
    unfolding may_try
    enough n w on h = ground (arith, on, h)

    crawl_mid-HasAnswers :
        (fuel : ℕ) (mid : ℤ) (b b' : Batch) (w w' : World)
        → HasAnswers b
        → crawl_mid c fuel mid b w ≡ done (w', b')
        → HasAnswers b'
    unfolding crawl_mid
    crawl_mid-HasAnswers fuel mid b b' w w' s h =
        elim (Run-cases (attempts c fuel (pos 0) mid c.blank b w)) [
          | inl (inl e) ↦ absurd (ground (arith, e, h))
          | inl (inr e) ↦ absurd (ground (arith, e, h))
          | inr ((w1, b1, true), e) ↦
              let (s1, given_up) =
                attempts-HasAnswers fuel 0 mid c.blank b b1 w w w1 true none_yet s e in
              elim (Bool-cases (force_stop w1)) [
                | inl off ↦ subst HasAnswers {x = b1} {y = b'} (ground (arith, e, off, h)) s1
                | inr on ↦
                    let (n, info, fails, no_more) = given_up refl in
                    let filed : record b1 { error_mids = b1.error_mids ++ mid ∷ [] } ≡ b' =
                      ground (arith, e, on, h) in
                    subst HasAnswers filed (record {
                      infos = s1.infos;
                      none_mids = s1.none_mids;
                      error_mids = All-snoc IsGivenUp b1.error_mids mid s1.error_mids (record {
                        n = n;
                        first = w;
                        last = w1;
                        info = info;
                        fails = fails;
                        enough = enough n w1 on no_more;
                      });
                    })
              ]
          | inr ((w1, b1, false), e) ↦
              let (s1, given_up) =
                attempts-HasAnswers fuel 0 mid c.blank b b1 w w w1 false none_yet s e in
              subst HasAnswers {x = b1} {y = b'} (ground (arith, e, h)) s1
        ]

    -- The loop adds to each list of a batch what it is for.
    pub crawl_mids-HasAnswers :
        (fuel : ℕ) (mids : List ℤ) (b b' : Batch) (w w' : World)
        → HasAnswers b
        → crawl_mids c fuel mids b w ≡ done (w', b')
        → HasAnswers b'
    unfolding crawl_mids
    crawl_mids-HasAnswers fuel [] b b' w w' s h =
        subst HasAnswers {x = b} {y = b'} (ground (arith, h)) s
    crawl_mids-HasAnswers fuel (mid ∷ mids) b b' w w' s h =
        elim (Run-cases (crawl_mid c fuel mid b w)) [
          | inl (inl e) ↦ absurd (ground (arith, e, h))
          | inl (inr e) ↦ absurd (ground (arith, e, h))
          | inr ((w1, b1), e) ↦
              let s1 = crawl_mid-HasAnswers fuel mid b b1 w w1 s e in
              elim (Bool-cases (force_stop w1)) [
                | inl k ↦ subst HasAnswers {x = b1} {y = b'} (ground (arith, e, k, h)) s1
                | inr k ↦ crawl_mids-HasAnswers fuel mids b1 b' w1 w' s1 (ground (arith, e, k, h))
              ]
        ]
