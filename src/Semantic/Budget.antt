-- ===== src/Semantic/Budget.antt =====
-- infra/semantic/budget/budget.go: the use of a vault over the last 24 hours, and the circuit breaker.
-- The float64 limit of processor time is the fraction `daily_local_cpu_parts / parts_in_second`, with a power
-- of two below. Amounts are not negative, and their sums stay below 2^53, where float64 is exact; a limit
-- below 0 is written 0, which is no limit either.
pub mod Laws
use para_mcp.Prelude.{
  ℕ, ◌+◌, ◌-◌, ◌*◌, Bool, true, false, ◌&&◌, Option, none, some, List, [], ◌∷◌, ◌++◌, ltb, is_some,
  if◌then◌else◌,
}
use Prim.Native.Nat.{◌/◌}
use para_mcp.Domain.Entities.{Time}

pub data Metric : Type 0 where
  vendor_tokens vendor_calls local_jobs local_cpu_secs : Metric

-- a limit of 0 is no limit
pub record Config : Type 0 where
  pub daily_vendor_tokens : ℕ
  pub daily_vendor_calls : ℕ
  pub daily_local_jobs : ℕ
  pub daily_local_cpu_parts : ℕ
  pub parts_in_second : ℕ

-- `DefaultConfig`
abbrev pub default_config : Config
default_config = record {
  daily_vendor_tokens = 1000000;
  daily_vendor_calls = 2000;
  daily_local_jobs = 5000;
  daily_local_cpu_parts = 3600;
  parts_in_second = 1;
}

pub record Breach : Type 0 where
  pub metric : Metric
  pub used : ℕ
  pub limit : ℕ

pub record Headroom : Type 0 where
  pub vendor_tokens_remaining : ℕ
  pub vendor_calls_remaining : ℕ
  pub local_jobs_remaining : ℕ
  -- in parts of a second, as the limit
  pub local_cpu_parts_remaining : ℕ
  -- `none` is the zero time
  pub resets_at : Option Time

pub record Use : Type 0 where
  pub at : Time
  pub metric : Metric
  pub amount : ℕ

pub record Budget : Type 0 where
  pub cfg : Config
  pub window : List Use
  pub tripped : Bool

-- `NewWithClock`
abbrev pub new_budget : Config → Budget
new_budget cfg = record { cfg = cfg; window = []; tripped = false }

-- 24 hours in nanoseconds
abbrev pub day : ℕ
day = 24 * 3600 * 1000000000

-- `at.Before(now.Add(-24 * time.Hour))`
abbrev pub is_old : Time → Use → Bool
is_old now x = ltb (x.at + day) now

-- `evict`: the entries in front that are older than a day
unfoldable pub evict : Time → List Use → List Use
evict now [] = []
evict now (x ∷ window) = let rest = evict now window in if is_old now x then rest else x ∷ window

pub record Totals : Type 0 where
  pub vendor_tokens_used : ℕ
  pub vendor_calls_used : ℕ
  pub local_jobs_used : ℕ
  pub local_cpu_secs_used : ℕ

abbrev pub no_use : Totals
no_use = record {
  vendor_tokens_used = 0;
  vendor_calls_used = 0;
  local_jobs_used = 0;
  local_cpu_secs_used = 0;
}

-- the switch on the metric
unfoldable pub add_use : Metric → ℕ → Totals → Totals
add_use vendor_tokens n t = record t { vendor_tokens_used = t.vendor_tokens_used + n }
add_use vendor_calls n t = record t { vendor_calls_used = t.vendor_calls_used + n }
add_use local_jobs n t = record t { local_jobs_used = t.local_jobs_used + n }
add_use local_cpu_secs n t = record t { local_cpu_secs_used = t.local_cpu_secs_used + n }

unfoldable pub totals_from : Totals → List Use → Totals
unfolding add_use
totals_from t [] = t
totals_from t (x ∷ window) = totals_from (add_use x.metric x.amount t) window

-- `totals`
unfoldable pub totals : List Use → Totals
unfolding totals_from
totals window = totals_from no_use window

abbrev pub exceeds : ℕ → ℕ → Bool
exceeds limit used = ltb 0 limit && ltb limit used

-- `checkLimits`
unfoldable pub check_limits : Config → Totals → Option Breach
check_limits cfg t =
    if exceeds cfg.daily_vendor_tokens t.vendor_tokens_used
    then some (record {
      metric = vendor_tokens;
      used = t.vendor_tokens_used;
      limit = cfg.daily_vendor_tokens;
    })
    else if exceeds cfg.daily_vendor_calls t.vendor_calls_used
    then some (record {
      metric = vendor_calls;
      used = t.vendor_calls_used;
      limit = cfg.daily_vendor_calls;
    })
    else if exceeds cfg.daily_local_jobs t.local_jobs_used
    then some
        (record { metric = local_jobs; used = t.local_jobs_used; limit = cfg.daily_local_jobs })
    else if exceeds cfg.daily_local_cpu_parts (t.local_cpu_secs_used * cfg.parts_in_second)
    then some (record {
      metric = local_cpu_secs;
      used = t.local_cpu_secs_used;
      limit = cfg.daily_local_cpu_parts / cfg.parts_in_second;
    })
    else none

-- the window behind a record
unfoldable pub recorded : Time → Metric → ℕ → List Use → List Use
unfolding evict
recorded now m amount window =
    evict now (window ++ record { at = now; metric = m; amount = amount } ∷ [])

-- `Record`, at the clock's reading
unfoldable pub record_use : Time → Metric → ℕ → Budget → Option Breach × Budget
unfolding recorded totals check_limits
record_use now m amount b =
    let window = recorded now m amount b.window in
    let breach = check_limits b.cfg (totals window) in
    (breach, record b { window = window; tripped = is_some breach })

-- `IsTripped`, and `DerivationPaused`
abbrev pub is_tripped : Budget → Bool
is_tripped b = b.tripped

abbrev pub oldest : List Use → Option Time
oldest [] = none
oldest (x ∷ window) = some (x.at + day)

-- `Headroom`: what is left, with the window as it is then
unfoldable pub headroom : Time → Budget → Headroom × Budget
unfolding evict totals
headroom now b =
    let window = evict now b.window in
    let t = totals window in
    (
      record {
        vendor_tokens_remaining = b.cfg.daily_vendor_tokens - t.vendor_tokens_used;
        vendor_calls_remaining = b.cfg.daily_vendor_calls - t.vendor_calls_used;
        local_jobs_remaining = b.cfg.daily_local_jobs - t.local_jobs_used;
        local_cpu_parts_remaining =
            b.cfg.daily_local_cpu_parts - t.local_cpu_secs_used * b.cfg.parts_in_second;
        resets_at = oldest window;
      },
      record b { window = window },
    )
