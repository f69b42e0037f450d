-- ===== src/Semantic/Budget/Laws.antt =====
-- budget.go: the breaker is open exactly where the use of the last day is over a limit.
use para_mcp.Prelude.{
  ℕ, ◌+◌, ◌≤◌, ◌*◌, ◌≡◌, refl, ap, sym, ◌∙◌, Bool, true, false, not, ◌||◌, Option, none, some, List,
  [], ◌∷◌, ◌++◌, is_some, All, All-imp, All-append, All-keep_of, keep, arith, if◌then◌else◌,
  Bool-cases, inl, inr,
}
use Prim.Native.Nat.{◌/◌}
use para_mcp.Domain.Entities.{Time}
use para_mcp.Semantic.Budget.{
  Metric, vendor_tokens, vendor_calls, local_jobs, local_cpu_secs, Config, Breach, Use, Budget,
  Totals, no_use, is_old, evict, add_use, totals_from, totals, exceeds, check_limits, recorded,
  record_use,
}

-- what a breach reports: of processor time, the whole seconds of the limit
abbrev pub limit_of : Metric → Config → ℕ
limit_of vendor_tokens cfg = cfg.daily_vendor_tokens
limit_of vendor_calls cfg = cfg.daily_vendor_calls
limit_of local_jobs cfg = cfg.daily_local_jobs
limit_of local_cpu_secs cfg = cfg.daily_local_cpu_parts / cfg.parts_in_second

-- whether a use is more than the limit, if there is one; a fraction of a second counts
abbrev pub goes_over : Metric → Config → ℕ → Bool
goes_over vendor_tokens cfg n = exceeds cfg.daily_vendor_tokens n
goes_over vendor_calls cfg n = exceeds cfg.daily_vendor_calls n
goes_over local_jobs cfg n = exceeds cfg.daily_local_jobs n
goes_over local_cpu_secs cfg n = exceeds cfg.daily_local_cpu_parts (n * cfg.parts_in_second)

abbrev pub used_of : Metric → Totals → ℕ
used_of vendor_tokens t = t.vendor_tokens_used
used_of vendor_calls t = t.vendor_calls_used
used_of local_jobs t = t.local_jobs_used
used_of local_cpu_secs t = t.local_cpu_secs_used

abbrev pub same_metric : Metric → Metric → Bool
same_metric vendor_tokens vendor_tokens = true
same_metric vendor_calls vendor_calls = true
same_metric local_jobs local_jobs = true
same_metric local_cpu_secs local_cpu_secs = true
same_metric _ _ = false

-- the use of a metric, summed over a list
unfoldable pub usage : Metric → List Use → ℕ
usage m [] = 0
usage m (x ∷ xs) = (if same_metric x.metric m then x.amount else 0) + usage m xs

-- The entries of a window stand in the order of their times, none later than now.
abbrev pub IsWindow : Time → List Use → Type 0
IsWindow now [] = Unit
IsWindow now (x ∷ xs) = (x.at ≤ now) × All (λ y. x.at ≤ y.at) xs × IsWindow now xs

used_of-add_use :
    (m k : Metric) (n : ℕ) (t : Totals)
    → used_of m (add_use k n t) ≡ used_of m t + (if same_metric k m then n else 0)
unfolding add_use
used_of-add_use m k n t = ground arith

used_of-totals_from :
    (m : Metric) (t : Totals) (xs : List Use)
    → used_of m (totals_from t xs) ≡ used_of m t + usage m xs
unfolding totals_from usage
used_of-totals_from m t [] = omega arith
used_of-totals_from m t (x ∷ xs) =
    used_of-totals_from m (add_use x.metric x.amount t) xs
    ∙ omega (arith, used_of-add_use m x.metric x.amount t)

used_of-totals : (m : Metric) (xs : List Use) → used_of m (totals xs) ≡ usage m xs
unfolding totals
used_of-totals m xs = used_of-totals_from m no_use xs ∙ by_metric m
  where
    by_metric : (m : Metric) → used_of m no_use + usage m xs ≡ usage m xs
    by_metric vendor_tokens = omega arith
    by_metric vendor_calls = omega arith
    by_metric local_jobs = omega arith
    by_metric local_cpu_secs = omega arith

keep_all :
    (now : Time) (xs : List Use)
    → All (λ y. is_old now y ≡ false) xs
    → keep (λ y. not (is_old now y)) xs ≡ xs
keep_all now [] h = refl
keep_all now (x ∷ xs) h = rw h.0 (ap (◌∷◌ x) (keep_all now xs h.1))

-- What is in front of a young entry is all that is old.
evict-keep :
    (now then' : Time) (xs : List Use)
    → IsWindow then' xs
    → evict now xs ≡ keep (λ y. not (is_old now y)) xs
unfolding evict
evict-keep now then' [] h = refl
evict-keep now then' (x ∷ xs) h = elim (Bool-cases (is_old now x)) [
  | inl e ↦ rw e (evict-keep now then' xs h.2)
  | inr e ↦ rw e (
      ap (◌∷◌ x) (
        sym (
          keep_all now xs (
            All-imp (λ y. x.at ≤ y.at) (λ y. is_old now y ≡ false) xs (λ y le. ground arith) h.1))))
]

IsWindow-append :
    (now : Time) (x : Use) (xs : List Use)
    → IsWindow now xs
    → x.at ≡ now
    → IsWindow now (xs ++ x ∷ [])
IsWindow-append now x [] h e = (omega arith, tt, tt)
IsWindow-append now x (y ∷ ys) h e = (
  h.0,
  All-append (λ z. y.at ≤ z.at) ys (x ∷ []) h.1 (omega (arith, h.0), tt),
  IsWindow-append now x ys h.2 e,
)

IsWindow-keep :
    (now : Time) (p : Use → Bool) (xs : List Use) → IsWindow now xs → IsWindow now (keep p xs)
IsWindow-keep now p [] h = tt
IsWindow-keep now p (x ∷ xs) h = elim (Bool-cases (p x)) [
  | inl e ↦ rw e (h.0, All-keep_of (λ y. x.at ≤ y.at) p xs h.1, IsWindow-keep now p xs h.2)
  | inr e ↦ rw e (IsWindow-keep now p xs h.2)
]

-- whether some metric is over its limit
abbrev pub is_over : Config → List Use → Bool
is_over cfg xs =
    goes_over vendor_tokens cfg (usage vendor_tokens xs)
    || goes_over vendor_calls cfg (usage vendor_calls xs)
    || goes_over local_jobs cfg (usage local_jobs xs)
    || goes_over local_cpu_secs cfg (usage local_cpu_secs xs)

is_some-check_limits :
    (cfg : Config) (xs : List Use) → is_some (check_limits cfg (totals xs)) ≡ is_over cfg xs
unfolding check_limits
is_some-check_limits cfg xs = ground (
  arith,
  used_of-totals vendor_tokens xs,
  used_of-totals vendor_calls xs,
  used_of-totals local_jobs xs,
  used_of-totals local_cpu_secs xs,
)

-- What a breach names: a metric that is over its limit, its use and its limit.
abbrev pub IsBreach : Config → List Use → Option Breach → Type 0
IsBreach cfg xs none = Unit
IsBreach cfg xs (some b) =
    (b.used ≡ usage b.metric xs)
    × (b.limit ≡ limit_of b.metric cfg)
    × (goes_over b.metric cfg b.used ≡ true)

next-IsBreach :
    (cfg : Config) (xs : List Use) (m : Metric) (rest : Option Breach)
    → IsBreach cfg xs rest
    → IsBreach cfg xs (
        if goes_over m cfg (used_of m (totals xs))
        then some (record { metric = m; used = used_of m (totals xs); limit = limit_of m cfg })
        else rest)
next-IsBreach cfg xs m rest h = elim (Bool-cases (goes_over m cfg (used_of m (totals xs)))) [
  | inl e ↦ rw e (used_of-totals m xs, refl, e)
  | inr e ↦ rw e h
]

check_limits-IsBreach :
    (cfg : Config) (xs : List Use) → IsBreach cfg xs (check_limits cfg (totals xs))
unfolding check_limits
check_limits-IsBreach cfg xs = next-IsBreach cfg xs vendor_tokens _ (
    next-IsBreach cfg xs vendor_calls _
      (next-IsBreach cfg xs local_jobs _ (next-IsBreach cfg xs local_cpu_secs none tt)))

-- Where the clock does not go back, a record leaves exactly the entries of the last 24 hours, the new one
-- among them, in the order of their times; the breaker is open behind it exactly where the use of some
-- metric over these is more than its limit, so that it closes again when old use falls out; and a breach
-- names such a metric, its use and its limit, of processor time the whole seconds of the limit. Amounts are
-- not negative, and their sums stay below 2^53.
pub record_use_lem :
    (now : Time) (m : Metric) (amount : ℕ) (b : Budget)
    → IsWindow now b.window
    → let out = record_use now m amount b in
      let new : Use = record { at = now; metric = m; amount = amount } in
      let recent = keep (λ y. not (is_old now y)) (b.window ++ new ∷ []) in
      (out.1.window ≡ recent)
      × IsWindow now out.1.window
      × (out.1.tripped ≡ is_over b.cfg recent)
      × IsBreach b.cfg recent out.0
unfolding record_use recorded
record_use_lem now m amount b h =
    let new : Use = record { at = now; metric = m; amount = amount } in
    let w = IsWindow-append now new b.window h refl in
    let recent = keep (λ y. not (is_old now y)) (b.window ++ new ∷ []) in
    rw (evict-keep now now (b.window ++ new ∷ []) w) (
      refl,
      IsWindow-keep now (λ y. not (is_old now y)) (b.window ++ new ∷ []) w,
      is_some-check_limits b.cfg recent,
      check_limits-IsBreach b.cfg recent,
    )
