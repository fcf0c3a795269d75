-- ===== src/Client/UserAgents.antt =====
-- BiliUserSpiderClient/src/manager/user_agent_manager.cpp. The file is an array of texts.
use bili_user_spider.Prelude.{
  ℕ, zero, suc, ◌%◌, ◌<◌, ◌≡◌, refl, List, [], ◌∷◌, ◌++◌, Option, none, some, Bool, true, false,
  arith, String, length,
}

-- The texts afterwards, and the result; `none` is a file that does not open or parse.
unfoldable pub read_config : Option (List String) → List String → List String × Bool
read_config none agents = (agents, false)
read_config (some []) agents = (agents, false)
read_config (some (x ∷ xs)) agents = (agents ++ (x ∷ xs), true)

unfoldable pub nth : ℕ → List String → Option String
nth n [] = none
nth zero (x ∷ xs) = some x
nth (suc n) (x ∷ xs) = nth n xs

-- `setRandomUA` for a result of `rand`; `none` is a division by 0.
unfoldable pub set_random_ua : ℕ → List String → Option String
set_random_ua r [] = none
set_random_ua r (x ∷ xs) = nth (r % length (x ∷ xs)) (x ∷ xs)

nth-some : (n : ℕ) (xs : List String) → n < length xs → (x : String) × (nth n xs ≡ some x)
unfolding nth
nth-some n [] h = absurd (omega arith)
nth-some zero (x ∷ xs) h = (x, refl)
nth-some (suc n) (x ∷ xs) h = nth-some n xs (omega arith)

-- Once the file is read, there is a user agent for every request.
pub set_random_ua-read_config :
    (r : ℕ) (file : Option (List String))
    → (read_config file []).1 ≡ true
    → (x : String) × (set_random_ua r (read_config file []).0 ≡ some x)
unfolding read_config set_random_ua
set_random_ua-read_config r none h = absurd (ground arith)
set_random_ua-read_config r (some []) h = absurd (ground arith)
set_random_ua-read_config r (some (x ∷ xs)) h =
    nth-some (r % length (x ∷ xs)) (x ∷ xs) (omega arith)
