-- ===== src/Filters/Engine.antt =====
-- `FilteredTransaction`, `FilterStats` and `FilterEngine`. The floating-point timings of the
-- source (`filter_time_ms`, `total_filter_time_ms` and the averages) are left out: nothing else
-- reads them. A `u64` counter wraps round.
use botmev.Prelude.{
  ℕ, String, Bool, not, Option, none, some, List, [], ◌∷◌, ◌++◌, add64, if◌then◌else◌, keep_if,
}
use botmev.Prelude.Dict.{Dict, str_eq, lookup, insert}
use botmev.Prelude.Int.{leb_ℤ}
use botmev.Types.{ParsedTransaction}
use botmev.Filters.Conditions.{
  FilterRule, FilterAction, accept, reject, tag, set_priority, rate_limit, member, evaluate_rule,
}
use botmev.Filters.Limiter.{RateLimiter, allow}
use botmev.Filters.Limiter

pub record FilteredTransaction : Type 0 where
  pub transaction : ParsedTransaction
  pub priority : ℕ
  pub tags : List String
  pub matched_rules : List String

unfoldable pub filtered : ParsedTransaction → FilteredTransaction
filtered t = record { transaction = t; priority = 128; tags = []; matched_rules = [] }

-- `push` unless it is there.
abbrev pub push_new : String → List String → List String
push_new s l = if member s l then l else l ++ s ∷ []

unfoldable pub add_tag : FilteredTransaction → String → FilteredTransaction
add_tag t s = record t { tags = push_new s t.tags }

unfoldable pub add_matched_rule : FilteredTransaction → String → FilteredTransaction
add_matched_rule t s = record t { matched_rules = push_new s t.matched_rules }

unfoldable pub add_tags : FilteredTransaction → List String → FilteredTransaction
unfolding add_tag
add_tags t [] = t
add_tags t (s ∷ ss) = add_tags (add_tag t s) ss

pub record FilterStats : Type 0 where
  pub total_processed : ℕ
  pub accepted : ℕ
  pub rejected : ℕ
  pub rate_limited : ℕ

-- `FilterStats::default()`, which `reset_stats` puts back.
abbrev pub no_stats : FilterStats
no_stats = record { total_processed = 0; accepted = 0; rejected = 0; rate_limited = 0 }

pub record FilterEngine : Type 0 where
  pub rules : List FilterRule
  pub rate_limiters : Dict RateLimiter
  pub stats : FilterStats

unfoldable pub new : FilterEngine
new = record { rules = []; rate_limiters = []; stats = no_stats }

-- `sort_by(|a, b| b.priority.cmp(&a.priority))`, the standard library's stable sort: a rule goes
-- before those behind it whose priority is not greater.
unfoldable pub insert_rule : FilterRule → List FilterRule → List FilterRule
insert_rule r [] = r ∷ []
insert_rule r (s ∷ l) = if leb_ℤ s.priority r.priority then r ∷ s ∷ l else s ∷ insert_rule r l

unfoldable pub sort_rules : List FilterRule → List FilterRule
unfolding insert_rule
sort_rules [] = []
sort_rules (r ∷ l) = insert_rule r (sort_rules l)

-- The limiters that `load_rules` makes, one for each rule that limits a rate; `now` is the
-- instant of the load. Limiters of rules that were loaded before stay.
abbrev pub add_limiter : ℕ → FilterRule → FilterAction → Dict RateLimiter → Dict RateLimiter
add_limiter now r (rate_limit max_per_second) m = insert r.name (Limiter.new now max_per_second) m
add_limiter now r _ m = m

unfoldable pub add_limiters : ℕ → List FilterRule → Dict RateLimiter → Dict RateLimiter
add_limiters now [] m = m
add_limiters now (r ∷ l) m = add_limiters now l (add_limiter now r r.action m)

unfoldable pub load_rules : ℕ → FilterEngine → List FilterRule → FilterEngine
unfolding sort_rules add_limiters
load_rules now e rules =
    let sorted = sort_rules rules in
    record e { rules = sorted; rate_limiters = add_limiters now sorted e.rate_limiters }

-- The clock as the loop over the rules reads it: for each rule the `Instant` that its limiter
-- sees and the hour that its conditions see.
pub record Clock : Type 0 where
  pub instant : FilterRule → ℕ
  pub hour : FilterRule → ℕ

-- A rule lets the loop go on, or drops the transaction.
pub data Flow : Type 0 where
  go_on : FilterEngine → FilteredTransaction → Flow
  dropped : FilterEngine → Flow

unfoldable pub limit_with :
    ℕ → FilterRule → FilterEngine → FilteredTransaction → Option RateLimiter → Flow
limit_with now r e t none = go_on e t
limit_with now r e t (some l) =
    let (allowed, l') = allow now l in
    let e' = record e { rate_limiters = insert r.name l' e.rate_limiters } in
    if allowed
    then go_on e' t
    else dropped
        (record e' { stats = record (e.stats) { rate_limited = add64 e.stats.rate_limited 1 } })

abbrev pub act : ℕ → FilterRule → FilterEngine → FilteredTransaction → FilterAction → Flow
act now r e t accept = go_on e (record t { priority = 255 })
act now r e t reject =
    dropped (record e { stats = record (e.stats) { rejected = add64 e.stats.rejected 1 } })
act now r e t (tag tags) = go_on e (add_tags t tags)
act now r e t (set_priority level) = go_on e (record t { priority = level })
act now r e t (rate_limit _) = limit_with now r e t (lookup r.name e.rate_limiters)

-- One round of the loop.
unfoldable pub apply_rule : Clock → FilterRule → FilterEngine → FilteredTransaction → Flow
unfolding add_matched_rule add_tags limit_with
apply_rule clock r e t =
    if not r.enabled
    then go_on e t
    else if evaluate_rule (clock.hour r) r t.transaction
    then act (clock.instant r) r e (add_matched_rule t r.name) r.action
    else go_on e t

unfoldable pub apply_rules :
    Clock
    → List FilterRule
    → FilterEngine
    → FilteredTransaction
    → Option FilteredTransaction × FilterEngine
apply_rules clock [] e t = (some t, e)
apply_rules clock (r ∷ rs) e t = elim (apply_rule clock r e t) [
  | go_on e' t' ↦ apply_rules clock rs e' t'
  | dropped e' ↦ (none, e')
]

abbrev pub count_accepted :
    Option FilteredTransaction × FilterEngine → Option FilteredTransaction × FilterEngine
count_accepted (none, e) = (none, e)
count_accepted (some t, e) =
    (some t, record e { stats = record (e.stats) { accepted = add64 e.stats.accepted 1 } })

unfoldable pub filter_transaction :
    Clock → FilterEngine → ParsedTransaction → Option FilteredTransaction × FilterEngine
unfolding filtered
filter_transaction clock e t =
    let stats = record (e.stats) { total_processed = add64 e.stats.total_processed 1 } in
    count_accepted (apply_rules clock e.rules (record e { stats = stats }) (filtered t))

unfoldable pub reset_stats : FilterEngine → FilterEngine
reset_stats e = record e { stats = no_stats }

unfoldable pub get_active_rules : FilterEngine → List FilterRule
get_active_rules e = keep_if (λ r. r.enabled) e.rules

-- The first rule of that name is changed; without one the call is an error.
unfoldable pub enable_first : String → Bool → List FilterRule → Option (List FilterRule)
enable_first n b [] = none
enable_first n b (r ∷ l) =
    if str_eq r.name n
    then some (record r { enabled = b } ∷ l)
    else elim (enable_first n b l) [ none ↦ none | some l' ↦ some (r ∷ l') ]

unfoldable pub set_rule_enabled : FilterEngine → String → Bool → Option FilterEngine
unfolding enable_first
set_rule_enabled e n b = elim (enable_first n b e.rules) [
  | none ↦ none
  | some l ↦ some (record e { rules = l })
]

-- What the owner of an engine asks of it, each call with the clock that it reads.
pub data Request : Type 0 where
  filters : Clock → ParsedTransaction → Request
  loads : ℕ → List FilterRule → Request
  enables : String → Bool → Request
  resets : Request

abbrev pub engine_or : FilterEngine → Option FilterEngine → FilterEngine
engine_or e none = e
engine_or e (some e') = e'

-- The engine after the call; a failed `set_rule_enabled` leaves it as it was.
unfoldable pub handle : FilterEngine → Request → FilterEngine
handle e (filters clock t) = (filter_transaction clock e t).1
handle e (loads now rules) = load_rules now e rules
handle e (enables n b) = engine_or e (set_rule_enabled e n b)
handle e resets = reset_stats e

unfoldable pub handle_all : FilterEngine → List Request → FilterEngine
unfolding handle
handle_all e [] = e
handle_all e (q ∷ qs) = handle_all (handle e q) qs
