-- ===== src/Client/Json.antt =====
-- `getIntVal` and `getUIntVal` of BiliUserSpiderClient/src/json/json.h on a number of a document, put
-- into an `int`. jsoncpp's `asInt` and `asUInt` throw on a number that is out of the range of their
-- type: that is `none`.
use bili_user_spider.Prelude.{
  ◌^◌, Option, none, some, if◌then◌else◌, ltb, ℤ, pos, negsuc, ◌-ℤ◌, ◌≡◌, ◌≤ℤ◌, ◌<ℤ◌, arith,
}

unfoldable pub as_int : ℤ → Option ℤ
as_int (pos n) = if ltb n (2 ^ 31) then some (pos n) else none
as_int (negsuc n) = if ltb n (2 ^ 31) then some (negsuc n) else none

-- The `unsigned int` becomes the `int` with the same bits.
unfoldable pub as_uint : ℤ → Option ℤ
as_uint (pos n) =
    if ltb n (2 ^ 31)
    then some (pos n)
    else if ltb n (2 ^ 32)
    then some (pos n -ℤ pos (2 ^ 32))
    else none
as_uint (negsuc n) = none

pub as_uint_same : (n : ℤ) → pos 0 ≤ℤ n → n <ℤ pos (2 ^ 31) → as_uint n ≡ some n
unfolding as_uint
as_uint_same n lo hi = ground arith

pub as_int_same : (n : ℤ) → pos 0 ≤ℤ n → n <ℤ pos (2 ^ 31) → as_int n ≡ some n
unfolding as_int
as_int_same n lo hi = ground arith
