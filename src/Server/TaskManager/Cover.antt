-- ===== src/Server/TaskManager/Cover.antt =====
-- How often a user id stands in a list of ranges, and what the steps of the task manager do to it.
use bili_user_spider.Prelude.{ℕ, ◌+◌, ◌≡◌, refl, List, [], ◌∷◌, ◌++◌, none, some, Bool, arith, ℤ}
use bili_user_spider.Prelude.Ranges.{inside}
use bili_user_spider.Prelude.OrdMap.{OrdMap, find, emplace, erase, erase_if}
use bili_user_spider.Server.TaskManager.{
  Range, BiliTask, range, TaskManager, task_ranges, recycle_if, recycle_all,
}

unfoldable pub cover : ℤ → List Range → ℕ
unfolding inside
cover m [] = 0
cover m (r ∷ rs) = inside m r + cover m rs

-- In how many places an id waits to be crawled: assigned, recycled, or not assigned yet.
unfoldable pub pending : {Text : Type 0} → ℤ → TaskManager Text → ℕ
pending m t =
    cover m (task_ranges t.tasks) + cover m t.tasks_recycled + inside m (t.mid_current, t.mid_end)

pub cover-append : (m : ℤ) (xs ys : List Range) → cover m (xs ++ ys) ≡ cover m xs + cover m ys
unfolding cover
cover-append m [] ys = omega arith
cover-append m (x ∷ xs) ys = omega (arith, cover-append m xs ys)

pub cover-emplace :
    (m k : ℤ) (task : BiliTask) (ts : OrdMap BiliTask)
    → find k ts ≡ none
    → cover m (task_ranges (emplace k task ts)) ≡ inside m (range task) + cover m (task_ranges ts)
unfolding cover emplace find
cover-emplace m k task [] h = refl
cover-emplace m k task ((j, w) ∷ ts) h = ground (arith, cover-emplace m k task ts)

pub cover-erase :
    (m k : ℤ) (task : BiliTask) (ts : OrdMap BiliTask)
    → find k ts ≡ some task
    → cover m (task_ranges ts) ≡ inside m (range task) + cover m (task_ranges (erase k ts))
unfolding cover erase find
cover-erase m k task [] h = absurd (ground arith)
cover-erase m k task ((j, w) ∷ ts) h = ground (arith, cover-erase m k task ts)

-- The tasks that are recycled and those that stay are all the tasks.
cover-recycle_if :
    (m : ℤ) (p : BiliTask → Bool) (ts : OrdMap BiliTask)
    → cover m (task_ranges (erase_if p ts)) + cover m (recycle_if p ts) ≡ cover m (task_ranges ts)
unfolding cover erase_if recycle_if
cover-recycle_if m p [] = refl
cover-recycle_if m p ((j, w) ∷ ts) = ground (arith, cover-recycle_if m p ts)

pub pending-recycle_all :
    {Text : Type 0} (m : ℤ) (p : BiliTask → Bool) (t : TaskManager Text)
    → pending m (recycle_all p t) ≡ pending m t
unfolding pending recycle_all
pending-recycle_all m p t =
    omega
      (arith, cover-recycle_if m p t.tasks, cover-append m t.tasks_recycled (recycle_if p t.tasks))
