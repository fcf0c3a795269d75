-- ===== src/Client/TaskManager/Account/Settle.antt =====
-- The loop behind a write of a buffer keeps the account of every main task.
use mathlib.Core.Path.{subst, sym}
use bili_user_spider.Prelude.{
  ℕ, ◌+◌, ◌≤◌, ◌<◌, ◌≡◌, refl, ◌⊎◌, inl, inr, List, [], ◌∷◌, Option, none, some, true, false, arith,
  if◌then◌else◌, length, Option-cases, Bool-cases, ℤ, pos, negsuc, pos_part, ◌+ℤ◌, ◌-ℤ◌, ◌≤ℤ◌,
  leb_ℤ, ◌==ℤ◌, ==ℤ_iff, ==ℤ_refl,
}
use bili_user_spider.Prelude.OrdMap.{OrdMap, find, assign, IsOrdered, AllAbove}
use bili_user_spider.Client.Types.{MainTask, is_completed, Outside}
use bili_user_spider.Client.TaskManager.{TaskManager}
use bili_user_spider.Client.TaskManager.Write.{g_stop, commit_main_task, settle_entry, settle}
use bili_user_spider.Client.TaskManager.Settle.{find-moved, commit_main_task-main_tasks}
use bili_user_spider.Client.TaskManager.Account.{in_map, AllFilled, size, Account}

in_map-AllAbove :
    {A : Type 0} (k lo : ℤ) (m : OrdMap (List A)) → k ≤ℤ lo → AllAbove lo m → in_map k m ≡ 0
unfolding in_map
in_map-AllAbove k lo [] h o = refl
in_map-AllAbove k lo ((j, xs) ∷ m) h o = ground (arith, in_map-AllAbove k lo m h o.1)

-- Whether the number of its written ids completes a main task.
completes :
    (d c : ℤ)
    → pos 0 ≤ℤ c
    → ((leb_ℤ d c ≡ true) × (pos_part d ≤ pos_part c))
      ⊎ ((leb_ℤ d c ≡ false) × (pos_part c < pos_part d))
completes (pos n) (pos m) h = ground arith
completes (pos n) (negsuc m) h = absurd (omega arith)
completes (negsuc n) (pos m) h = ground arith
completes (negsuc n) (negsuc m) h = absurd (omega arith)

pos_part_add :
    (c : ℤ) (n : ℕ) → pos 0 ≤ℤ c → (pos 0 ≤ℤ c +ℤ pos n) × (pos_part (c +ℤ pos n) ≡ pos_part c + n)
unfolding ◌+ℤ◌
pos_part_add (pos m) n h = ground arith
pos_part_add (negsuc m) n h = absurd (omega arith)

abbrev pub added : ℕ → MainTask → MainTask
added n main = record main { completed = main.completed +ℤ pos n }

-- A report that succeeds leaves nothing; one that fails leaves the rows where they are; without one
-- the rows are counted.
Account-reported :
    (main : MainTask) (w n rest b : ℕ)
    → Account (some main) w (n + rest) b
    → 1 ≤ n
    → rest ≡ 0
    → size main ≤ pos_part (main.completed +ℤ pos n)
    → Account none w rest b
Account-reported main w n rest b (known, inl exact) filled last full =
    omega (arith, (pos_part_add main.completed n known).1)
Account-reported main w n rest b (known, inr (no_wait, late, inl no_a)) filled last full =
    absurd (omega arith)
Account-reported main w n rest b (known, inr (no_wait, late, inr no_b)) filled last full =
    omega arith

Account-unreported :
    (main : MainTask) (w n rest b : ℕ)
    → Account (some main) w (n + rest) b
    → size main ≤ pos_part (main.completed +ℤ pos n)
    → Account (some (added n main)) w (n + rest) b
Account-unreported main w n rest b (known, inl exact) full =
    let (lower, sum) = pos_part_add main.completed n known in
    (lower, inr (omega arith, full, inr (omega arith)))
Account-unreported main w n rest b (known, inr (no_wait, late, one)) full =
    ((pos_part_add main.completed n known).0, inr (no_wait, full, one))

Account-counted :
    (main : MainTask) (w n rest b : ℕ)
    → Account (some main) w (n + rest) b
    → pos_part (main.completed +ℤ pos n) < size main
    → Account (some (added n main)) w rest b
Account-counted main w n rest b (known, inl exact) less =
    let (lower, sum) = pos_part_add main.completed n known in (lower, inl (omega arith))
Account-counted main w n rest b (known, inr (no_wait, late, one)) less =
    let (lower, sum) = pos_part_add main.completed n known in absurd (omega arith)

module _ (out : Outside) where
  open out use {World}

  -- The account of a main task behind one round of the loop, where `a` are its rows that are left
  -- if the loop goes on and `a'` those that are left if it does not.
  settle_entry-own :
      (k : ℤ) (n : ℕ) (t : TaskManager World) (w rest b : ℕ)
      → IsOrdered t.main_tasks
      → Account (find k t.main_tasks) w (n + rest) b
      → 1 ≤ n
      → rest ≡ 0
      → IsOrdered (settle_entry out k (pos n) t).0.main_tasks
        × Account
            (find k (settle_entry out k (pos n) t).0.main_tasks)
            w
            (if (settle_entry out k (pos n) t).1 then rest else n + rest)
            b
  unfolding settle_entry is_completed
  settle_entry-own k n t w rest b o account filled last =
      elim (Option-cases (find k t.main_tasks)) [
        | inl e ↦ absurd (ground (arith, e, account))
        | inr (main, e) ↦
            let held : Account (some main) w (n + rest) b =
              subst (λ (found : Option MainTask). Account found w (n + rest) b) e account in
            let t' : TaskManager World = record t {
              main_tasks = assign k (added n main) t.main_tasks;
            } in
            let same = commit_main_task-main_tasks out 10 k t' in
            let moved =
              find-moved k k (added n main) t.main_tasks (commit_main_task out 10 k t').0.main_tasks
                o same in
            let stays = find-moved k k (added n main) t.main_tasks t'.main_tasks o refl in
            elim (completes (main.mid_end -ℤ main.mid_start) (main.completed +ℤ pos n)
              (pos_part_add main.completed n held.0).0) [
                | inl (complete, full) ↦ ground (
                  arith,
                  e,
                  complete,
                  moved,
                  ==ℤ_refl k,
                  Account-reported main w n rest b held filled last full,
                  Account-unreported main w n rest b held full,
                )
                | inr (incomplete, less) ↦ ground (
                  arith,
                  e,
                  incomplete,
                  stays,
                  ==ℤ_refl k,
                  Account-counted main w n rest b held less,
                )
              ]
      ]

  settle_entry-other :
      (id n k : ℤ) (t : TaskManager World)
      → IsOrdered t.main_tasks
      → (k ==ℤ id) ≡ false
      → IsOrdered (settle_entry out id n t).0.main_tasks
        × (find k (settle_entry out id n t).0.main_tasks ≡ find k t.main_tasks)
  unfolding settle_entry g_stop
  settle_entry-other id n k t o other = elim (Option-cases (find id t.main_tasks)) [
    | inl e ↦ ground (arith, e)
    | inr (main, e) ↦
        let main' : MainTask = record main { completed = main.completed +ℤ n } in
        let t' : TaskManager World = record t { main_tasks = assign id main' t.main_tasks } in
        let same = commit_main_task-main_tasks out 10 id t' in
        let moved =
          find-moved id k main' t.main_tasks (commit_main_task out 10 id t').0.main_tasks o same in
        let stays = find-moved id k main' t.main_tasks t'.main_tasks o refl in
        ground (arith, e, other, moved, stays)
  ]

  -- What one round of the loop keeps, whatever the entry is.
  settle_entry-Account :
      {A : Type 0} (k id : ℤ) (rows : List A) (buff : OrdMap (List A)) (t : TaskManager World)
      (w b : ℕ)
      → IsOrdered {V = List A} ((id, rows) ∷ buff)
      → AllFilled {A = A} ((id, rows) ∷ buff)
      → IsOrdered t.main_tasks
      → Account (find k t.main_tasks) w (in_map {A = A} k ((id, rows) ∷ buff)) b
      → IsOrdered (settle_entry out id (pos (length rows)) t).0.main_tasks
        × Account
            (find k (settle_entry out id (pos (length rows)) t).0.main_tasks)
            w
            (if (settle_entry out id (pos (length rows)) t).1
              then in_map k buff
              else in_map {A = A} k ((id, rows) ∷ buff))
            b
  unfolding in_map
  settle_entry-Account {A} k id rows buff t w b ob filled o account = elim (Bool-cases (k ==ℤ id)) [
    | inl own ↦
        let same : k ≡ id = (==ℤ_iff k id).0 own in
        let counted : in_map {A = A} k ((id, rows) ∷ buff) ≡ length rows + in_map k buff =
          ground (arith, own) in
        let held : Account (find id t.main_tasks) w (length rows + in_map k buff) b =
          subst (λ (j : ℤ). Account (find j t.main_tasks) w (length rows + in_map k buff) b) same
            (subst (λ (n : ℕ). Account (find k t.main_tasks) w n b) counted account) in
        let last : in_map k buff ≡ 0 = in_map-AllAbove k id buff (ground (arith, own)) ob.0 in
        let kept = settle_entry-own id (length rows) t w (in_map k buff) b o held filled.0 last in
        let next = settle_entry out id (pos (length rows)) t in
        (
          kept.0,
          subst
              (λ (n : ℕ).
                Account (find k next.0.main_tasks) w (if next.1 then in_map k buff else n) b)
              (sym counted)
              (subst
                (λ (j : ℤ).
                  Account (find j next.0.main_tasks) w
                    (if next.1 then in_map k buff else length rows + in_map k buff) b)
                (sym same) kept.1),
        )
    | inr other ↦
        let kept = settle_entry-other id (pos (length rows)) k t o other in
        ground (arith, kept, account, other)
  ]

  -- The loop behind a write keeps every account, whether or not it comes through.
  pub settle-Account :
      {A : Type 0} (k : ℤ) (buff : OrdMap (List A)) (t : TaskManager World) (w b : ℕ)
      → IsOrdered buff
      → AllFilled buff
      → IsOrdered t.main_tasks
      → Account (find k t.main_tasks) w (in_map k buff) b
      → IsOrdered (settle out buff t).0.main_tasks
        × Account (find k (settle out buff t).0.main_tasks) w (in_map k (settle out buff t).1) b
        × IsOrdered (settle out buff t).1
        × AllFilled (settle out buff t).1
  unfolding settle
  settle-Account k [] t w b ob filled o account = (o, account, tt, tt)
  settle-Account k ((id, rows) ∷ buff) t w b ob filled o account =
      let next = settle_entry out id (pos (length rows)) t in
      let kept = settle_entry-Account k id rows buff t w b ob filled o account in
      elim (Bool-cases next.1) [
        | inl going ↦
            ground (arith, going, kept, settle-Account k buff next.0 w b ob.1 filled.1 kept.0)
        | inr ends ↦ ground (arith, ends, kept, ob, filled)
      ]
