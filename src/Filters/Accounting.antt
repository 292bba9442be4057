-- ===== src/Filters/Accounting.antt =====
-- The counters of the engine.
use botmev.Prelude.{
  ℕ, ◌+◌, ◌%◌, ◌≡◌, refl, List, [], ◌∷◌, Option, none, some, arith, add64, u64_mod,
}
use botmev.Prelude.Dict.{lookup}
use botmev.Types.{ParsedTransaction}
use botmev.Filters.Conditions.{
  FilterRule, FilterAction, accept, reject, tag, set_priority, rate_limit,
}
use botmev.Filters.Limiter.{RateLimiter}
use botmev.Filters.Engine.{
  FilterEngine, FilteredTransaction, Flow, go_on, dropped, Clock, limit_with, act, add_matched_rule,
  apply_rule, apply_rules, filter_transaction, load_rules, reset_stats, filtered, count_accepted,
  set_rule_enabled, Request, filters, loads, enables, resets, handle, handle_all,
}

-- Every transaction that was processed is accepted, rejected or rate limited, up to the wrap of
-- the counters.
abbrev pub IsBalanced : FilterEngine → Type 0
IsBalanced e =
    (e.stats.accepted + e.stats.rejected + e.stats.rate_limited) % u64_mod
    ≡ e.stats.total_processed % u64_mod

-- One is processed and not yet counted.
abbrev Owes : FilterEngine → Type 0
Owes e =
    (e.stats.accepted + e.stats.rejected + e.stats.rate_limited + 1) % u64_mod
    ≡ e.stats.total_processed % u64_mod

abbrev Counted : Flow → Type 0
Counted (go_on e t) = Owes e
Counted (dropped e) = IsBalanced e

limit_with-Counted :
    (now : ℕ) (r : FilterRule) (e : FilterEngine) (t : FilteredTransaction) (o : Option RateLimiter)
    → Owes e
    → Counted (limit_with now r e t o)
unfolding limit_with
limit_with-Counted now r e t none h = h
limit_with-Counted now r e t (some l) h = ground arith

act-Counted :
    (now : ℕ) (r : FilterRule) (e : FilterEngine) (t : FilteredTransaction) (a : FilterAction)
    → Owes e
    → Counted (act now r e t a)
act-Counted now r e t accept h = h
act-Counted now r e t reject h = omega arith
act-Counted now r e t (tag tags) h = h
act-Counted now r e t (set_priority level) h = h
act-Counted now r e t (rate_limit n) h =
    limit_with-Counted now r e t (lookup r.name e.rate_limiters) h

apply_rule-Counted :
    (clock : Clock) (r : FilterRule) (e : FilterEngine) (t : FilteredTransaction)
    → Owes e
    → Counted (apply_rule clock r e t)
unfolding apply_rule
apply_rule-Counted clock r e t h =
    ground (arith, act-Counted (clock.instant r) r e (add_matched_rule t r.name) r.action h)

abbrev Ends : Option FilteredTransaction × FilterEngine → Type 0
Ends (some t, e) = Owes e
Ends (none, e) = IsBalanced e

apply_rules-Ends :
    (clock : Clock) (rs : List FilterRule) (e : FilterEngine) (t : FilteredTransaction)
    → Owes e
    → Ends (apply_rules clock rs e t)
unfolding apply_rules
apply_rules-Ends clock [] e t h = h
apply_rules-Ends clock (r ∷ rs) e t h =
    go (apply_rule clock r e t) (apply_rule-Counted clock r e t h) (apply_rules-Ends clock rs)
  where
    go :
        (f : Flow)
        → Counted f
        → ((e' : FilterEngine) (t' : FilteredTransaction)
            → Owes e'
            → Ends (apply_rules clock rs e' t'))
        → Ends (elim f [ go_on e' t' ↦ apply_rules clock rs e' t' | dropped e' ↦ (none, e') ])
    go (go_on e' t') c ih = ih e' t' c
    go (dropped e') c ih = c

count_accepted-IsBalanced :
    (r : Option FilteredTransaction × FilterEngine) → Ends r → IsBalanced (count_accepted r).1
count_accepted-IsBalanced (none, e) h = h
count_accepted-IsBalanced (some t, e) h = omega arith

filter_transaction-IsBalanced :
    (clock : Clock) (e : FilterEngine) (t : ParsedTransaction)
    → IsBalanced e
    → IsBalanced (filter_transaction clock e t).1
unfolding filter_transaction
filter_transaction-IsBalanced clock e t h =
    let stats = record (e.stats) { total_processed = add64 e.stats.total_processed 1 } in
    count_accepted-IsBalanced _
      (apply_rules-Ends clock e.rules (record e { stats = stats }) (filtered t) (omega arith))

handle-IsBalanced : (e : FilterEngine) (q : Request) → IsBalanced e → IsBalanced (handle e q)
unfolding handle load_rules reset_stats set_rule_enabled
handle-IsBalanced e (filters clock t) h = filter_transaction-IsBalanced clock e t h
handle-IsBalanced e (loads now rules) h = h
handle-IsBalanced e (enables n b) h = ground arith
handle-IsBalanced e resets h = refl

-- After any sequence of calls on an engine whose counters balance, a new one's for example, they
-- balance: accepted, rejected and rate limited add up to the processed transactions, modulo 2^64.
pub handle_all-IsBalanced :
    (e : FilterEngine) (qs : List Request) → IsBalanced e → IsBalanced (handle_all e qs)
unfolding handle_all
handle_all-IsBalanced e [] h = h
handle_all-IsBalanced e (q ∷ qs) h = handle_all-IsBalanced (handle e q) qs (handle-IsBalanced e q h)
