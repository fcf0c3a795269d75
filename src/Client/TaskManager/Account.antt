-- ===== src/Client/TaskManager/Account.antt =====
-- What is left of a main task: its ids that wait to be crawled, its rows that wait to be written, and
-- how many are written come to all of its ids.
pub mod Settle
pub mod Pushed
pub mod Written
pub mod Crawled
pub mod Cut
pub mod Handed
pub mod Runs
use mathlib.Core.Path.{subst, sym}
use bili_user_spider.Prelude.{
  ℕ, zero, suc, ◌+◌, ◌≤◌, ◌<◌, ◌≡◌, refl, ◌⊎◌, inl, inr, List, [], ◌∷◌, Option, none, some, true,
  false, arith, if◌then◌else◌, length, Option-cases, Bool-cases, ℤ, pos, negsuc, pos_part, ◌+ℤ◌,
  ◌-ℤ◌, ◌≤ℤ◌, leb_ℤ, ◌==ℤ◌, ==ℤ_iff, ==ℤ_refl, +ℤ_parts,
}
use bili_user_spider.Prelude.OrdMap.{OrdMap, find, erase, assign, IsOrdered, AllAbove}
use bili_user_spider.Client.Types.{MainTask, SubTask, is_completed, Outside}
use bili_user_spider.Client.TaskManager.{TaskManager}
use bili_user_spider.Client.TaskManager.Write.{g_stop, commit_main_task, settle_entry, settle}
use bili_user_spider.Client.TaskManager.Settle.{find-moved, commit_main_task-main_tasks}

-- The entries of a main task in a buffer, and in the sub tasks.
unfoldable pub in_map {ℓ} : {A : Type ℓ} → ℤ → OrdMap (List A) → ℕ
in_map k [] = 0
in_map k ((j, xs) ∷ m) = (if k ==ℤ j then length xs else 0) + in_map k m

unfoldable pub in_subs : ℤ → OrdMap SubTask → ℕ
in_subs k [] = 0
in_subs k ((j, sub) ∷ m) = (if k ==ℤ sub.main_task_id then length sub.mids else 0) + in_subs k m

-- No entry of a buffer is empty.
abbrev pub AllFilled {ℓ} : {A : Type ℓ} → OrdMap (List A) → Type 0
AllFilled [] = Unit {0}
AllFilled ((j, xs) ∷ m) = (1 ≤ length xs) × AllFilled m

abbrev pub size : MainTask → ℕ
size main = pos_part (main.mid_end -ℤ main.mid_start)

-- Of a main task with `w` ids that wait and `a` and `b` rows in the two buffers: nothing waits once
-- it is gone; until then all its ids are somewhere, or it was complete when a report failed.
abbrev pub Account : Option MainTask → ℕ → ℕ → ℕ → Type 0
Account none w a b = w + a + b ≡ 0
Account (some main) w a b =
    (pos 0 ≤ℤ main.completed)
    × ((pos_part main.completed + w + a + b ≡ size main)
        ⊎ ((w ≡ 0) × (size main ≤ pos_part main.completed) × ((a ≡ 0) ⊎ (b ≡ 0))))
