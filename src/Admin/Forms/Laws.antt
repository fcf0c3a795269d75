-- ===== src/Admin/Forms/Laws.antt =====
-- What a configuration becomes that is shown and set again.
use bili_user_spider.Prelude.{
  [], ◌∷◌, ◌≡◌, refl, some, true, false, ◌||◌, ℤ, pos, ◌⊎◌, arith, ==ℤ_iff, ==ℤ_refl, ◌<ℤ◌,
}
use bili_user_spider.Prelude.OrdMap.{OrdMap, emplace, find, IsOrdered}
use bili_user_spider.Prelude.OrdMap.Laws.{find-emplace}
use bili_user_spider.Server.Config.{ClientConfig, is_empty}
use bili_user_spider.Admin.Forms.{
  Qt, Line, SleepTimeDialog, ClientForm, add_line, get_map, line_of, set_map, times_of, number_of,
  show_client, client_of,
}

-- A number that is shown is not empty, and is read again.
pub record IsReadable (qt : Qt) : Type 0 where
  pub not_empty : (n : ℤ) → is_empty (qt.number n) ≡ false
  pub same : (n : ℤ) → qt.to_int (qt.number n) ≡ n

abbrev IsBlank : Line → Type 0
IsBlank l = (is_empty l.proxies_count || is_empty l.sleep_time) ≡ true

-- At most three sleep times, and nothing in the lines that they leave.
abbrev pub Fits : OrdMap ℤ → SleepTimeDialog → Type 0
Fits [] d = IsBlank d.line0 × IsBlank d.line1 × IsBlank d.line2
Fits (p ∷ []) d = IsBlank d.line1 × IsBlank d.line2
Fits (p ∷ q ∷ []) d = IsBlank d.line2
Fits (p ∷ q ∷ r ∷ []) d = Unit {0}
Fits (p ∷ q ∷ r ∷ s ∷ m) d = ⊥

abbrev pub HasTimes : ℤ → Type 0
HasTimes n = (n ≡ pos 1) ⊎ (n ≡ pos 2) ⊎ (n ≡ pos 3)

add_line_blank : (qt : Qt) (l : Line) (m : OrdMap ℤ) → IsBlank l → add_line qt l m ≡ m
unfolding add_line
add_line_blank qt l m blank = rw blank refl

find-add_line :
    (qt : Qt) (k v : ℤ) (l : Line) (m : OrdMap ℤ)
    → IsOrdered m
    → find k m ≡ some v
    → find k (add_line qt l m) ≡ some v
unfolding add_line
find-add_line qt k v l m o e = ground (
  arith,
  e,
  find-emplace (qt.to_int l.proxies_count) k (qt.to_int l.sleep_time) m o,
  ==ℤ_iff k (qt.to_int l.proxies_count),
)

two_lines :
    (a u b v : ℤ)
    → a <ℤ b
    → let m = emplace b v (emplace a u []) in IsOrdered m × (find b m ≡ some v)
unfolding emplace find
two_lines a u b v lt = ground (arith, ==ℤ_refl b)

module _ (qt : Qt) (readable : IsReadable qt) where
  add_line-line_of : (k v : ℤ) (m : OrdMap ℤ) → add_line qt (line_of qt (k, v)) m ≡ emplace k v m
  unfolding add_line line_of
  add_line-line_of k v m =
      rw (readable.not_empty k, readable.not_empty v, readable.same k, readable.same v) refl

  get_map-set_map :
      (m : OrdMap ℤ) (d : SleepTimeDialog)
      → IsOrdered m
      → Fits m d
      → get_map qt (set_map qt m d) ≡ m
  unfolding get_map set_map emplace
  get_map-set_map [] d o fits = ground (
    arith,
    add_line_blank qt d.line0 [],
    add_line_blank qt d.line1 [],
    add_line_blank qt d.line2 [],
  )
  get_map-set_map ((a, u) ∷ []) d o fits = ground (
    arith,
    add_line-line_of a u [],
    add_line_blank qt d.line1 ((a, u) ∷ []),
    add_line_blank qt d.line2 ((a, u) ∷ []),
  )
  get_map-set_map ((a, u) ∷ (b, v) ∷ []) d o fits = ground (
    arith,
    add_line-line_of a u [],
    add_line-line_of b v ((a, u) ∷ []),
    add_line_blank qt d.line2 ((a, u) ∷ (b, v) ∷ []),
  )
  get_map-set_map ((a, u) ∷ (b, v) ∷ (c, w) ∷ []) d o fits = ground (
    arith,
    add_line-line_of a u [],
    add_line-line_of b v ((a, u) ∷ []),
    add_line-line_of c w ((a, u) ∷ (b, v) ∷ []),
  )
  get_map-set_map (p ∷ q ∷ r ∷ s ∷ m) d o fits = absurd fits

  -- A client configuration that is shown in the boxes and set again as it is comes out unchanged,
  -- if Qt reads the numbers it shows, its API is one of the two, its times are one of the three,
  -- its sleep times are in the order of their numbers of proxies and at most three, and the lines
  -- of the dialog that they leave free are blank.
  pub client_of-show_client :
      (c : ClientConfig) (f : ClientForm)
      → (c.bili_api_type ≡ pos 0) ⊎ (c.bili_api_type ≡ pos 1)
      → HasTimes c.main_task_step_times
      → IsOrdered c.proxy_sleeptime_map
      → Fits c.proxy_sleeptime_map f.dialog
      → client_of qt (show_client qt c f) ≡ some c
  unfolding client_of show_client times_of number_of
  client_of-show_client c f api times o fits = ground (
    arith,
    get_map-set_map c.proxy_sleeptime_map f.dialog o fits,
    readable.not_empty c.sub_task_step,
    readable.not_empty c.timeout,
    readable.not_empty c.proxy_max_error_times,
    readable.not_empty c.mid_max_error_times,
    readable.not_empty c.interval_proxypool_sync,
    readable.same c.sub_task_step,
    readable.same c.timeout,
    readable.same c.proxy_max_error_times,
    readable.same c.mid_max_error_times,
    readable.same c.interval_proxypool_sync,
  )

  -- A sleep time that an earlier configuration left in the second line is set again with the next
  -- one, if that has a single sleep time, for fewer proxies.
  get_map-set_map_stale :
      (a u b v : ℤ) (d : SleepTimeDialog)
      → a <ℤ b
      → d.line1 ≡ line_of qt (b, v)
      → find b (get_map qt (set_map qt ((a, u) ∷ []) d)) ≡ some v
  unfolding get_map set_map
  get_map-set_map_stale a u b v d lt stale =
      let both = two_lines a u b v lt in
      rw (stale, add_line-line_of a u [], add_line-line_of b v (emplace a u []))
        (find-add_line qt b v d.line2 (emplace b v (emplace a u [])) both.0 both.1)
