-- ===== src/Window.antt =====
-- redis/lua-scripts/token_bucket.lua: the sliding-window limiter over a sorted set. The commands of the
-- Redis server are an interface. Times are natural numbers of one unit, and the
-- width of the window is in the same unit; `TIME` is the server's clock, the same for all commands
-- of a run, and names the member that is added.
pub mod Sets
pub mod Exact
use rate_limiter.Base.{ℕ, ◌+◌, Bool, true, false, Bytes, ltb, if◌then◌else◌}
use rate_limiter.Window.Sets.{SortedSets, Entry}

-- What one run gives: 1 or 0 as a Boolean.
unfoldable pub sliding_window : (R : SortedSets) → Bytes → ℕ → ℕ → ℕ → ℕ → R.State → Bool × R.State
sliding_window R key max_tokens window now clock s =
    let pruned = R.zremrangebyscore s clock key window now in
    if ltb (R.zcard pruned clock key) max_tokens
    then (
      true,
      R.expire (R.zadd pruned clock key (record { score = now; member = clock })) clock key window,
    )
    else (false, R.expire pruned clock key window)
