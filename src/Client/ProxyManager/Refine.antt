-- ===== src/Client/ProxyManager/Refine.antt =====
-- The pool as what its users see of it: a function from proxies to their errors.
use bili_user_spider.Prelude.{
  ◌≡◌, refl, ◌∙◌, List, [], ◌∷◌, Option, none, some, arith, if◌then◌else◌, ℤ, pos, ◌+ℤ◌, ◌⊎◌,
  Option-cases, inl, inr,
}
use bili_user_spider.Client.ProxyManager.Proxies.{
  ProxyData, Pool, equivalent, equivalent_iff, find, insert, emplace, erase, assign, find-insert,
  find-erase, find-assign,
}
use bili_user_spider.Client.ProxyManager.{error_proxy, drop_proxy}
use bili_user_spider.Client.ProxyManager.Db.{fill}
use bili_user_spider.Client.ProxyManager.Laws.{contains, find-error_proxy, fill-find}

-- What threads ask of the pool.
pub data Request : Type 0 where
  counts_error drops : ProxyData → Request
  syncs : List ProxyData → Request

unfoldable pub run : List Request → Pool → Pool
run [] m = m
run (counts_error p ∷ rs) m = run rs (error_proxy p m)
run (drops p ∷ rs) m = run rs (drop_proxy p m)
run (syncs ps ∷ rs) m = run rs (fill ps [])

-- The number of errors of each proxy of the pool.
abbrev pub Errors : Type 0
Errors = ProxyData → Option ℤ

abbrev pub one_more : Option ℤ → ℤ
one_more none = pos 1
one_more (some n) = n +ℤ pos 1

unfoldable pub answer : Request → Errors → Errors
answer (counts_error p) f q = if equivalent q p then some (one_more (f p)) else f q
answer (drops p) f q = if equivalent q p then none else f q
answer (syncs ps) f q = if contains q ps then some (pos 0) else none

unfoldable pub answers : List Request → Errors → Errors
answers [] f = f
answers (r ∷ rs) f = answers rs (answer r f)

-- No proxy stands in the map twice.
abbrev pub IsUnique : Pool → Type 0
IsUnique [] = Unit {0}
IsUnique ((p, n) ∷ m) = (find p m ≡ none) × IsUnique m

insert-IsUnique :
    (p : ProxyData) (n : ℤ) (m : Pool) → find p m ≡ none → IsUnique m → IsUnique (insert p n m)
unfolding insert find
insert-IsUnique p n [] h u = (refl, tt)
insert-IsUnique p n ((q, k) ∷ m) h u =
    ground
      (arith, insert-IsUnique p n m, find-insert p q n m, equivalent_iff q p, equivalent_iff p q)

emplace-insert :
    (p : ProxyData) (n : ℤ) (m : Pool)
    → ((find p m ≡ none) × (emplace p n m ≡ insert p n m)) ⊎ (emplace p n m ≡ m)
unfolding emplace
emplace-insert p n m = elim (Option-cases (find p m)) [
  | inl e ↦ inl (e, ground (arith, e))
  | inr (k, e) ↦ inr (ground (arith, e))
]

emplace-IsUnique : (p : ProxyData) (n : ℤ) (m : Pool) → IsUnique m → IsUnique (emplace p n m)
emplace-IsUnique p n m u = elim (emplace-insert p n m) [
  | inl (absent, e) ↦ rw e (insert-IsUnique p n m absent u)
  | inr e ↦ rw e u
]

assign-IsUnique : (p : ProxyData) (n : ℤ) (m : Pool) → IsUnique m → IsUnique (assign p n m)
unfolding assign
assign-IsUnique p n [] u = tt
assign-IsUnique p n ((q, k) ∷ m) u =
    ground (
      arith,
      assign-IsUnique p n m u.1,
      find-assign p q n m,
      equivalent_iff q p,
      equivalent_iff p q,
    )

erase-IsUnique : (p : ProxyData) (m : Pool) → IsUnique m → IsUnique (erase p m)
unfolding erase
erase-IsUnique p [] u = tt
erase-IsUnique p ((q, k) ∷ m) u =
    ground (arith, erase-IsUnique p m u.1, find-erase p q m, equivalent_iff q p, equivalent_iff p q)

find-erase_self : (p : ProxyData) (m : Pool) → IsUnique m → find p (erase p m) ≡ none
unfolding find erase
find-erase_self p [] u = refl
find-erase_self p ((q, k) ∷ m) u = ground (arith, find-erase_self p m u.1, equivalent_iff p q)

fill-IsUnique : (ps : List ProxyData) (m : Pool) → IsUnique m → IsUnique (fill ps m)
unfolding fill
fill-IsUnique [] m u = u
fill-IsUnique (p ∷ ps) m u = fill-IsUnique ps (emplace p (pos 0) m) (emplace-IsUnique p (pos 0) m u)

erase_or_same :
    (p : ProxyData) (m : Pool)
    → (drop_proxy p m ≡ erase p m) ⊎ ((find p m ≡ none) × (drop_proxy p m ≡ m))
unfolding drop_proxy
erase_or_same p m = elim (Option-cases (find p m)) [
  | inl e ↦ inr (e, ground (arith, e))
  | inr (k, e) ↦ inl (ground (arith, e))
]

error_or_new :
    (p : ProxyData) (m : Pool)
    → (error_proxy p m ≡ emplace p (pos 1) m) ⊎ ((n : ℤ) × (error_proxy p m ≡ assign p n m))
unfolding error_proxy
error_or_new p m = elim (Option-cases (find p m)) [
  | inl e ↦ inl (ground (arith, e))
  | inr (n, e) ↦ inr (n +ℤ pos 1, ground (arith, e))
]

error_proxy-IsUnique : (p : ProxyData) (m : Pool) → IsUnique m → IsUnique (error_proxy p m)
error_proxy-IsUnique p m u = elim (error_or_new p m) [
  | inl e ↦ rw e (emplace-IsUnique p (pos 1) m u)
  | inr (n, e) ↦ rw e (assign-IsUnique p n m u)
]

drop_proxy-IsUnique : (p : ProxyData) (m : Pool) → IsUnique m → IsUnique (drop_proxy p m)
drop_proxy-IsUnique p m u = elim (erase_or_same p m) [
  | inl e ↦ rw e (erase-IsUnique p m u)
  | inr (_, e) ↦ rw e u
]

find-drop_proxy :
    (p q : ProxyData) (m : Pool)
    → IsUnique m
    → find q (drop_proxy p m) ≡ (if equivalent q p then none else find q m)
find-drop_proxy p q m u = elim (erase_or_same p m) [
  | inl e ↦ rw e (ground (arith, find-erase p q m, find-erase_self p m u, equivalent_iff q p))
  | inr (absent, e) ↦ rw e (ground (arith, absent, equivalent_iff q p))
]

answer-same :
    (r : Request) (f g : Errors)
    → ((q : ProxyData) → f q ≡ g q)
    → (q : ProxyData) → answer r f q ≡ answer r g q
unfolding answer
answer-same (counts_error p) f g same q = ground (arith, same p, same q)
answer-same (drops p) f g same q = ground (arith, same q)
answer-same (syncs ps) f g same q = refl

answers-same :
    (rs : List Request) (f g : Errors)
    → ((q : ProxyData) → f q ≡ g q)
    → (q : ProxyData) → answers rs f q ≡ answers rs g q
unfolding answers
answers-same [] f g same q = same q
answers-same (r ∷ rs) f g same q =
    answers-same rs (answer r f) (answer r g) (answer-same r f g same) q

find-counts_error :
    (p : ProxyData) (m : Pool) (q : ProxyData)
    → find q (error_proxy p m) ≡ answer (counts_error p) (λ x. find x m) q
unfolding answer
find-counts_error p m q = ground (arith, find-error_proxy p q m)

find-drops :
    (p : ProxyData) (m : Pool)
    → IsUnique m
    → (q : ProxyData) → find q (drop_proxy p m) ≡ answer (drops p) (λ x. find x m) q
unfolding answer
find-drops p m u q = find-drop_proxy p q m u

find-syncs :
    (ps : List ProxyData) (m : Pool) (q : ProxyData)
    → find q (fill ps []) ≡ answer (syncs ps) (λ x. find x m) q
unfolding answer find
find-syncs ps m q = fill-find q ps []

-- The map does what the function from proxies to errors does, through any requests of any threads:
-- an error counts one more and brings a proxy back, a proxy that is dropped is gone, and a sync
-- leaves the proxies of the database with no error; if no proxy stands in the map twice at first.
pub run-answers :
    (rs : List Request) (m : Pool)
    → IsUnique m
    → (q : ProxyData) → find q (run rs m) ≡ answers rs (λ p. find p m) q
unfolding run answers
run-answers [] m u q = refl
run-answers (counts_error p ∷ rs) m u q =
    run-answers rs (error_proxy p m) (error_proxy-IsUnique p m u) q
    ∙ answers-same rs (λ x. find x (error_proxy p m)) (answer (counts_error p) (λ x. find x m))
        (find-counts_error p m) q
run-answers (drops p ∷ rs) m u q =
    run-answers rs (drop_proxy p m) (drop_proxy-IsUnique p m u) q
    ∙ answers-same rs (λ x. find x (drop_proxy p m)) (answer (drops p) (λ x. find x m))
        (find-drops p m u) q
run-answers (syncs ps ∷ rs) m u q =
    run-answers rs (fill ps []) (fill-IsUnique ps [] tt) q
    ∙ answers-same rs (λ x. find x (fill ps [])) (answer (syncs ps) (λ x. find x m))
        (find-syncs ps m) q
