-- ===== src/Server/MysqlPool.antt =====
-- The pool of database connections, `MysqlDbPool` of BiliUserSpiderServer/src/mysql/mysql_pool.h and
-- .cpp, which the client has as well. A connection is a number; MySQL is not part of the repository.
pub mod Laws
use bili_user_spider.Prelude.{
  ℕ, zero, suc, ◌+◌, ◌≡◌, List, [], ◌∷◌, ◌++◌, Option, none, some, Bool, true, false, ◌||◌,
  if◌then◌else◌, ◌==◌, ltb, length, ℤ, pos, ltb_ℤ, ◌==ℤ◌,
}

abbrev pub Connection : Type 0
Connection = ℕ

-- `connect` for each connection of the pool: `opens` says of the attempts in order which succeed.
unfoldable pub init : ℕ → List Bool → List Connection → List Connection × ℕ
init zero opens pool = (pool, 0)
init (suc n) [] pool = (pool, 0)
init (suc n) (false ∷ opens) pool = (pool, 0)
init (suc n) (true ∷ opens) pool =
    let (pool', count) = init n opens (pool ++ length pool ∷ []) in (pool', count + 1)

unfoldable pub contains : Connection → List Connection → Bool
contains c [] = false
contains c (d ∷ ds) = c == d || contains c ds

-- `freeConnection` on the queue; `none` is the null pointer.
unfoldable pub free_connection : Option Connection → List Connection → List Connection × Bool
free_connection none pool = (pool, false)
free_connection (some c) pool = if contains c pool then (pool, false) else (pool ++ c ∷ [], true)

-- The queue, and the thread that holds the mutex.
pub record Pool : Type 0 where
  pub queue : List Connection
  pub holder : Option ℕ

-- The moves of the threads. `getConnection` locks first, waits with the lock while the queue is
-- empty, and takes the front; `freeConnection` locks for its whole body, but for the null pointer.
pub data Move : Pool → Pool → Type 0 where
  lock : (i : ℕ) (p : Pool) → p.holder ≡ none → Move p (record p { holder = some i })
  wait : (i : ℕ) (p : Pool) → p.holder ≡ some i → p.queue ≡ [] → Move p p
  take :
      (i : ℕ) (p : Pool) (c : Connection) (cs : List Connection)
      → p.holder ≡ some i
      → p.queue ≡ c ∷ cs
      → Move p (record { queue = cs; holder = none })
  give :
      (c : Connection) (p : Pool)
      → p.holder ≡ none
      → Move p (record p { queue = (free_connection (some c) p.queue).0 })

pub data Moves : Pool → Pool → Type 0 where
  here : (p : Pool) → Moves p p
  then_move : (p q r : Pool) → Moves p q → Move q r → Moves p r
