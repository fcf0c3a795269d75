-- ===== src/Client/Spider/Laws.antt =====
-- The loops over the users of a sub task: where each id ends, and that the loops end.
use bili_user_spider.Prelude.{
  ℕ, zero, suc, ◌+◌, ◌≤◌, ◌≡◌, ◌≢◌, refl, List, [], ◌∷◌, ◌++◌, Option, some, Bool, true, false, ◌⊎◌,
  arith, Bool-cases, Option-cases, inl, inr, ℤ, pos, ◌+ℤ◌, ◌≤ℤ◌, +ℤ_parts,
}
use bili_user_spider.Prelude.Ranges.{occurrences, occurrences-append}
use bili_user_spider.Client.Types.{UserInfo}
use bili_user_spider.Client.User.{Outcome, found, absent, failed}
use bili_user_spider.Client.Spider.{
  Crawl, Batch, Run, done, crashed, out_of_fuel, get_user_info, may_try, attempts, crawl_mid,
  crawl_mids,
}

-- The ids of users.
unfoldable pub mids_of : List UserInfo → List ℤ
mids_of [] = []
mids_of (info ∷ infos) = info.mid ∷ mids_of infos

-- How often an id stands in the three lists.
unfoldable pub in_batch : ℤ → Batch → ℕ
in_batch m b =
    occurrences m (mids_of b.infos) + occurrences m b.none_mids + occurrences m b.error_mids

mids_of-append :
    (m : ℤ) (xs ys : List UserInfo)
    → occurrences m (mids_of (xs ++ ys)) ≡ occurrences m (mids_of xs) + occurrences m (mids_of ys)
unfolding occurrences mids_of
mids_of-append m [] ys = omega arith
mids_of-append m (x ∷ xs) ys = omega (arith, mids_of-append m xs ys)

-- A call that finds a user finds the one that it was asked for.
abbrev pub FindsAsked :
    {World : Type 0} → (ℤ → UserInfo → World → Option (World × UserInfo × Outcome)) → Type 0
FindsAsked {World} call =
    (mid : ℤ) (info : UserInfo) (w w' : World) (info' : UserInfo)
    → call mid info w ≡ some (w', info', found)
    → info'.mid ≡ mid

pub Run-cases :
    {A : Type 0} (r : Run A) → ((r ≡ crashed) ⊎ (r ≡ out_of_fuel)) ⊎ ((a : A) × (r ≡ done a))
Run-cases (done a) = inr (a, refl)
Run-cases crashed = inl (inl refl)
Run-cases out_of_fuel = inl (inr refl)

module _ (c : Crawl) where
  open c use {World, force_stop, mid_max_error_times}

  -- What one user adds to the lists: itself, once, unless the thread gives up.
  attempts-in_batch :
      (fuel : ℕ) (i mid m : ℤ) (info : UserInfo) (b b' : Batch) (w w' : World) (has_error : Bool)
      → FindsAsked (get_user_info c)
      → attempts c fuel i mid info b w ≡ done (w', b', has_error)
      → in_batch m b'
        ≡ in_batch m b + (elim has_error [ true ↦ 0 | false ↦ occurrences m (mid ∷ []) ])
  unfolding attempts in_batch occurrences mids_of
  attempts-in_batch zero i mid m info b b' w w' e asked h = absurd (ground arith)
  attempts-in_batch (suc fuel) i mid m info b b' w w' e asked h =
      elim (Bool-cases (may_try c i w)) [
        | inr k ↦ ground (arith, k, h)
        | inl k ↦ elim (Option-cases (get_user_info c mid info w)) [
          | inl g ↦ absurd (ground (arith, k, g, h))
          | inr ((w1, info1, found), g) ↦
              let same : info1.mid ≡ mid = asked mid info w w1 info1 g in
              ground (arith, k, g, h, same, mids_of-append m b.infos (info1 ∷ []))
          | inr ((w1, info1, absent), g) ↦
              ground (arith, k, g, h, occurrences-append m b.none_mids (mid ∷ []))
          | inr ((w1, info1, failed), g) ↦
              ground
                (arith, k, g, h, attempts-in_batch fuel (i +ℤ pos 1) mid m info1 b b' w1 w' e asked)
        ]
      ]

  crawl_mid-in_batch :
      (fuel : ℕ) (mid m : ℤ) (b b' : Batch) (w w' : World)
      → FindsAsked (get_user_info c)
      → crawl_mid c fuel mid b w ≡ done (w', b')
      → force_stop w' ≡ false
      → in_batch m b' ≡ in_batch m b + occurrences m (mid ∷ [])
  unfolding crawl_mid in_batch occurrences
  crawl_mid-in_batch fuel mid m b b' w w' asked h on =
      elim (Run-cases (attempts c fuel (pos 0) mid c.blank b w)) [
        | inr ((w1, b1, has_error), e) ↦
            let all = attempts-in_batch fuel (pos 0) mid m c.blank b b1 w w1 has_error asked e in
            ground (arith, e, h, on, all, occurrences-append m b1.error_mids (mid ∷ []))
        | inl (inl e) ↦ absurd (ground (arith, e, h))
        | inl (inr e) ↦ absurd (ground (arith, e, h))
      ]

  -- When the loop over the ids of a sub task ends without a stop, every one of them stands in
  -- exactly one more place of the three lists than before, as often as it was asked for; if the
  -- calls of the site find whom they are asked for.
  pub crawl_mids-in_batch :
      (fuel : ℕ) (mids : List ℤ) (m : ℤ) (b b' : Batch) (w w' : World)
      → FindsAsked (get_user_info c)
      → crawl_mids c fuel mids b w ≡ done (w', b')
      → force_stop w' ≡ false
      → in_batch m b' ≡ in_batch m b + occurrences m mids
  unfolding crawl_mids occurrences
  crawl_mids-in_batch fuel [] m b b' w w' asked h on = ground (arith, h)
  crawl_mids-in_batch fuel (mid ∷ mids) m b b' w w' asked h on =
      elim (Run-cases (crawl_mid c fuel mid b w)) [
        | inl (inl e) ↦ absurd (ground (arith, e, h))
        | inl (inr e) ↦ absurd (ground (arith, e, h))
        | inr ((w1, b1), e) ↦ elim (Bool-cases (force_stop w1)) [
          | inl k ↦ absurd (ground (arith, e, k, h, on))
          | inr k ↦
              let one = crawl_mid-in_batch fuel mid m b b1 w w1 asked e k in
              let rest : crawl_mids c fuel mids b1 w1 ≡ done (w', b') = ground (arith, e, k, h) in
              let all = crawl_mids-in_batch fuel mids m b1 b' w1 w' asked rest on in
              omega (arith, one, all)
        ]
      ]

  may_try-below :
      (n i : ℕ) (w : World)
      → mid_max_error_times w ≤ℤ pos n
      → may_try c (pos i) w ≡ true
      → suc i ≤ n
  unfolding may_try
  may_try-below n i w bound h = ground arith

  attempts-fuel :
      (n fuel : ℕ) (mid : ℤ) (i : ℕ) (info : UserInfo) (b : Batch) (w : World)
      → ((v : World) → mid_max_error_times v ≤ℤ pos n)
      → i ≤ n
      → suc n ≤ fuel + i
      → attempts c fuel (pos i) mid info b w ≢ out_of_fuel
  unfolding attempts
  attempts-fuel n zero mid i info b w bounded below enough = absurd (omega arith)
  attempts-fuel n (suc fuel) mid i info b w bounded below enough =
      elim (Bool-cases (may_try c (pos i) w)) [
        | inr k ↦ ground (arith, k)
        | inl k ↦
            let next : suc i ≤ n = may_try-below n i w (bounded w) k in
            elim (Option-cases (get_user_info c mid info w)) [
              | inl g ↦ ground (arith, k, g)
              | inr ((w1, info1, found), g) ↦ ground (arith, k, g)
              | inr ((w1, info1, absent), g) ↦ ground (arith, k, g)
              | inr ((w1, info1, failed), g) ↦
                  let rest : attempts c fuel (pos (suc i)) mid info1 b w1 ≢ out_of_fuel =
                    attempts-fuel n fuel mid (suc i) info1 b w1 bounded next (omega arith) in
                  ground (arith, k, g, rest, +ℤ_parts (pos i) (pos 1))
            ]
      ]

  -- With one step more than `mid_max_error_times` ever allows, the loop over the ids ends, whatever
  -- the site answers.
  pub crawl_mids-fuel :
      (n : ℕ) (mids : List ℤ) (b : Batch) (w : World)
      → ((v : World) → mid_max_error_times v ≤ℤ pos n)
      → crawl_mids c (suc n) mids b w ≢ out_of_fuel
  unfolding crawl_mids crawl_mid
  crawl_mids-fuel n [] b w bounded = ground arith
  crawl_mids-fuel n (mid ∷ mids) b w bounded = elim (Run-cases (crawl_mid c (suc n) mid b w)) [
    | inl (inl e) ↦ ground (arith, e)
    | inl (inr e) ↦
        let ends : attempts c (suc n) (pos 0) mid c.blank b w ≢ out_of_fuel =
          attempts-fuel n (suc n) mid 0 c.blank b w bounded (omega arith) (omega arith) in
        absurd (ground (arith, e, ends))
    | inr ((w1, b1), e) ↦ ground (arith, e, crawl_mids-fuel n mids b1 w1 bounded)
  ]
