-- ===== src/Client/TaskManager/Account/Pushed.antt =====
-- What more rows of a buffer, more sub tasks and fewer of them are to the counts of an account.
use bili_user_spider.Prelude.{
  ℕ, ◌+◌, ◌≤◌, ◌≡◌, refl, List, [], ◌∷◌, ◌++◌, Option, none, some, arith, if◌then◌else◌, length,
  length-append, Option-cases, inl, inr, ℤ, ◌==ℤ◌,
}
use bili_user_spider.Prelude.OrdMap.{OrdMap, find, emplace, erase, assign, IsOrdered}
use bili_user_spider.Prelude.OrdMap.Laws.{emplace-IsOrdered, assign-IsOrdered}
use bili_user_spider.Client.Types.{MainTask, SubTask}
use bili_user_spider.Client.TaskManager.{push_all}
use bili_user_spider.Client.TaskManager.Account.{in_map, in_subs, AllFilled, Account}

-- `n` for the one main task, 0 for the others.
abbrev pub only : ℤ → ℕ → ℤ → ℕ
only id n k = if k ==ℤ id then n else 0

in_map-emplace :
    {A : Type 0} (k id : ℤ) (xs : List A) (m : OrdMap (List A))
    → find id m ≡ none
    → in_map k (emplace id xs m) ≡ only id (length xs) k + in_map k m
unfolding in_map emplace find
in_map-emplace k id xs [] h = refl
in_map-emplace k id xs ((j, ys) ∷ m) h = ground (arith, in_map-emplace k id xs m)

in_map-assign :
    {A : Type 0} (k id : ℤ) (old new : List A) (m : OrdMap (List A))
    → find id m ≡ some old
    → in_map k (assign id new m) + only id (length old) k ≡ in_map k m + only id (length new) k
unfolding in_map assign find
in_map-assign k id old new [] h = absurd (ground arith)
in_map-assign k id old new ((j, ys) ∷ m) h = ground (arith, in_map-assign k id old new m)

pub in_map-push_all :
    {A : Type 0} (k id : ℤ) (xs : List A) (m : OrdMap (List A))
    → in_map k (push_all id xs m) ≡ in_map k m + only id (length xs) k
unfolding push_all
in_map-push_all k id xs m = elim (Option-cases (find id m)) [
  | inl e ↦ ground (arith, e, in_map-emplace k id xs m e)
  | inr (old, e) ↦ ground (arith, e, in_map-assign k id old (old ++ xs) m e, length-append old xs)
]

emplace-AllFilled :
    {A : Type 0} (id : ℤ) (xs : List A) (m : OrdMap (List A))
    → 1 ≤ length xs
    → AllFilled m
    → AllFilled (emplace id xs m)
unfolding emplace
emplace-AllFilled id xs [] h f = (h, tt)
emplace-AllFilled id xs ((j, ys) ∷ m) h f = ground (arith, emplace-AllFilled id xs m h f.1)

assign-AllFilled :
    {A : Type 0} (id : ℤ) (xs : List A) (m : OrdMap (List A))
    → 1 ≤ length xs
    → AllFilled m
    → AllFilled (assign id xs m)
unfolding assign
assign-AllFilled id xs [] h f = tt
assign-AllFilled id xs ((j, ys) ∷ m) h f = ground (arith, assign-AllFilled id xs m h f.1)

pub push_all-AllFilled :
    {A : Type 0} (id : ℤ) (xs : List A) (m : OrdMap (List A))
    → 1 ≤ length xs
    → AllFilled m
    → AllFilled (push_all id xs m)
unfolding push_all
push_all-AllFilled id xs m h f = elim (Option-cases (find id m)) [
  | inl e ↦ ground (arith, e, emplace-AllFilled id xs m h f)
  | inr (old, e) ↦
      ground (arith, e, assign-AllFilled id (old ++ xs) m (omega (arith, length-append old xs)) f)
]

pub push_all-IsOrdered :
    {A : Type 0} (id : ℤ) (xs : List A) (m : OrdMap (List A))
    → IsOrdered m
    → IsOrdered (push_all id xs m)
unfolding push_all
push_all-IsOrdered id xs m o = elim (Option-cases (find id m)) [
  | inl e ↦ ground (arith, e, emplace-IsOrdered id xs m o)
  | inr (old, e) ↦ ground (arith, e, assign-IsOrdered id (old ++ xs) m o)
]

pub in_subs-emplace :
    (k id : ℤ) (sub : SubTask) (m : OrdMap SubTask)
    → find id m ≡ none
    → in_subs k (emplace id sub m) ≡ only sub.main_task_id (length sub.mids) k + in_subs k m
unfolding in_subs emplace find
in_subs-emplace k id sub [] h = refl
in_subs-emplace k id sub ((j, other) ∷ m) h = ground (arith, in_subs-emplace k id sub m)

pub in_subs-erase :
    (k id : ℤ) (sub : SubTask) (m : OrdMap SubTask)
    → find id m ≡ some sub
    → in_subs k m ≡ only sub.main_task_id (length sub.mids) k + in_subs k (erase id m)
unfolding in_subs erase find
in_subs-erase k id sub [] h = absurd (ground arith)
in_subs-erase k id sub ((j, other) ∷ m) h = ground (arith, in_subs-erase k id sub m)

-- Ids that were crawled move from those that wait to the rows of a buffer.
pub Account-move :
    (o : Option MainTask) (w a b n : ℕ) → Account o (w + n) a b → Account o w (a + n) b
Account-move none w a b n h = omega arith
Account-move (some main) w a b n (known, inl exact) = (known, inl (omega arith))
Account-move (some main) w a b n (known, inr (no_wait, late, inl no_a)) =
    (known, inr (omega arith, late, inl (omega arith)))
Account-move (some main) w a b n (known, inr (no_wait, late, inr no_b)) =
    (known, inr (omega arith, late, inr no_b))
