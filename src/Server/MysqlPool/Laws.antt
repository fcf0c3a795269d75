-- ===== src/Server/MysqlPool/Laws.antt =====
-- What happens to a pool that runs empty, and that no connection is in it twice.
use bili_user_spider.Prelude.{
  ℕ, ◌≡◌, List, [], ◌∷◌, ◌++◌, Option, none, some, false, ◌||◌, arith, ◌==◌, Bool-cases, inl, inr,
}
use bili_user_spider.Server.MysqlPool.{
  Connection, contains, free_connection, Pool, Move, lock, wait, take, give, Moves, here, then_move,
}

Move-stuck :
    {p q : Pool} (i : ℕ)
    → Move p q
    → p.holder ≡ some i
    → p.queue ≡ []
    → (q.holder ≡ some i) × (q.queue ≡ [])
Move-stuck i (lock j p free) held empty = absurd (ground arith)
Move-stuck i (wait j p mine none_left) held empty = (held, empty)
Move-stuck i (take j p c cs mine some_left) held empty = absurd (ground arith)
Move-stuck i (give c p free) held empty = absurd (ground arith)

-- A thread that asks for a connection while the queue is empty keeps the lock that giving one back
-- needs: from then on no move of any thread changes the pool, and the thread never gets one.
pub Moves-stuck :
    {p q : Pool} (i : ℕ)
    → Moves p q
    → p.holder ≡ some i
    → p.queue ≡ []
    → (q.holder ≡ some i) × (q.queue ≡ [])
Moves-stuck i (here p) held empty = (held, empty)
Moves-stuck i (then_move p q r before move) held empty =
    let (still_held, still_empty) = Moves-stuck i before held empty in
    Move-stuck i move still_held still_empty

abbrev pub AllNew : List Connection → Type 0
AllNew [] = Unit {0}
AllNew (c ∷ cs) = (contains c cs ≡ false) × AllNew cs

contains-append :
    (c d : Connection) (cs : List Connection)
    → contains c (cs ++ d ∷ []) ≡ (contains c cs || c == d)
unfolding contains
contains-append c d [] = ground arith
contains-append c d (e ∷ cs) = ground (arith, contains-append c d cs)

AllNew-append :
    (c : Connection) (cs : List Connection)
    → contains c cs ≡ false
    → AllNew cs
    → AllNew (cs ++ c ∷ [])
unfolding contains
AllNew-append c [] absent new = ground arith
AllNew-append c (d ∷ cs) absent new =
    ground (arith, contains-append d c cs, AllNew-append c cs, new.0, new.1)

-- Giving a connection back puts none into the queue twice, also where it is given back twice.
pub free_connection-AllNew :
    (c : Option Connection) (pool : List Connection)
    → AllNew pool
    → AllNew (free_connection c pool).0
unfolding free_connection
free_connection-AllNew none pool new = new
free_connection-AllNew (some c) pool new = elim (Bool-cases (contains c pool)) [
  | inl e ↦ rw e new
  | inr e ↦ rw e (AllNew-append c pool e new)
]
