-- ===== src/Filters/Verdict.antt =====
-- What becomes of a transaction, told from the rules that match it and without the loop's state.
use botmev.Prelude.{
  ℕ, ◌≡◌, refl, Bool, true, false, not, ◌&&◌, ◌||◌, String, List, [], ◌∷◌, Option, none, some,
  arith, keep_if, add64, if◌then◌else◌,
}
use mathlib.Core.Path.{subst}
use botmev.Types.{ParsedTransaction}
use botmev.Filters.Conditions.{
  FilterRule, FilterAction, accept, reject, tag, set_priority, rate_limit, evaluate_rule,
}
use botmev.Filters.Engine.{
  FilterEngine, FilteredTransaction, Flow, go_on, dropped, Clock, limit_with, act, push_new,
  add_matched_rule, add_tag, add_tags, apply_rule, apply_rules, filter_transaction, count_accepted,
  filtered,
}

-- The enabled rules all of whose conditions hold, in the engine's order.
abbrev pub matching : Clock → ParsedTransaction → List FilterRule → List FilterRule
matching clock t = keep_if (λ r. r.enabled && evaluate_rule (clock.hour r) r t)

abbrev pub is_reject : FilterAction → Bool
is_reject reject = true
is_reject _ = false

abbrev pub is_limit : FilterAction → Bool
is_limit (rate_limit n) = true
is_limit _ = false

abbrev pub some_rejects : List FilterRule → Bool
some_rejects [] = false
some_rejects (r ∷ l) = is_reject r.action || some_rejects l

abbrev pub some_limits : List FilterRule → Bool
some_limits [] = false
some_limits (r ∷ l) = is_limit r.action || some_limits l

abbrev priority_after : FilterAction → ℕ → ℕ
priority_after accept p = 255
priority_after (set_priority level) p = level
priority_after _ p = p

-- The last rule that sets a priority decides.
abbrev pub final_priority : ℕ → List FilterRule → ℕ
final_priority p [] = p
final_priority p (r ∷ l) = final_priority (priority_after r.action p) l

abbrev pub union : List String → List String → List String
union seen [] = seen
union seen (s ∷ l) = union (push_new s seen) l

abbrev tags_after : FilterAction → List String → List String
tags_after (tag ts) seen = union seen ts
tags_after _ seen = seen

abbrev pub final_tags : List String → List FilterRule → List String
final_tags seen [] = seen
final_tags seen (r ∷ l) = final_tags (tags_after r.action seen) l

abbrev pub final_names : List String → List FilterRule → List String
final_names seen [] = seen
final_names seen (r ∷ l) = final_names (push_new r.name seen) l

-- What the matching rules `l` make of `t`.
abbrev pub Verdict : List FilterRule → FilteredTransaction → Option FilteredTransaction → Type 0
Verdict l t none = (some_rejects l || some_limits l) ≡ true
Verdict l t (some t') =
    (some_rejects l ≡ false)
    × (t'.transaction ≡ t.transaction)
    × (t'.priority ≡ final_priority t.priority l)
    × (t'.tags ≡ final_tags t.tags l)
    × (t'.matched_rules ≡ final_names t.matched_rules l)

-- The same of one rule that matches, whose name is noted in `t` already.
abbrev Acted : FilterRule → FilteredTransaction → Flow → Type 0
Acted r t (dropped e) = (is_reject r.action || is_limit r.action) ≡ true
Acted r t (go_on e t') =
    (is_reject r.action ≡ false)
    × (t'.transaction ≡ t.transaction)
    × (t'.priority ≡ priority_after r.action t.priority)
    × (t'.tags ≡ tags_after r.action t.tags)
    × (t'.matched_rules ≡ t.matched_rules)

abbrev Tagged : FilteredTransaction → List String → FilteredTransaction → Type 0
Tagged t ts t' =
    (t'.transaction ≡ t.transaction)
    × (t'.priority ≡ t.priority)
    × (t'.tags ≡ union t.tags ts)
    × (t'.matched_rules ≡ t.matched_rules)

add_tags-Tagged : (t : FilteredTransaction) (ts : List String) → Tagged t ts (add_tags t ts)
unfolding add_tags
add_tags-Tagged t [] = (refl, refl, refl, refl)
add_tags-Tagged t (s ∷ ss) = add_tags-Tagged (add_tag t s) ss

act-Acted :
    (now : ℕ) (r : FilterRule) (e : FilterEngine) (t : FilteredTransaction) (a : FilterAction)
    → r.action ≡ a
    → Acted r t (act now r e t a)
unfolding limit_with
act-Acted now r e t accept h = ground arith
act-Acted now r e t reject h = ground arith
act-Acted now r e t (tag ts) h = ground (arith, add_tags-Tagged t ts)
act-Acted now r e t (set_priority level) h = ground arith
act-Acted now r e t (rate_limit n) h = ground arith

-- A rule that matches and lets the loop go on, before the verdict of those behind it.
Verdict-cons :
    (r : FilterRule) (l : List FilterRule) (t t' : FilteredTransaction) (e : FilterEngine)
    (o : Option FilteredTransaction)
    → Acted r (add_matched_rule t r.name) (go_on e t')
    → Verdict l t' o
    → Verdict (r ∷ l) t o
unfolding add_matched_rule
Verdict-cons r l t t' e none a v = ground arith
Verdict-cons r l t t' e (some u) a v = ground arith

abbrev continue_with : Clock → List FilterRule → Flow → Option FilteredTransaction × FilterEngine
continue_with clock rs (go_on e t) = apply_rules clock rs e t
continue_with clock rs (dropped e) = (none, e)

-- What the induction knows of the rules behind.
abbrev Rest : Clock → List FilterRule → Type 0
Rest clock rs =
    (e : FilterEngine) (t : FilteredTransaction)
    → Verdict (matching clock t.transaction rs) t (apply_rules clock rs e t).0

match-Verdict :
    (clock : Clock) (r : FilterRule) (rs : List FilterRule) (t : FilteredTransaction) (f : Flow)
    → Acted r (add_matched_rule t r.name) f
    → Rest clock rs
    → Verdict (r ∷ matching clock t.transaction rs) t (continue_with clock rs f).0
unfolding add_matched_rule
match-Verdict clock r rs t (dropped e) a rest = ground arith
match-Verdict clock r rs t (go_on e t') a rest =
    let seen = rest e t' in
    Verdict-cons r (matching clock t.transaction rs) t t' e (apply_rules clock rs e t').0 a
      (subst (λ u. Verdict (matching clock u rs) t' (apply_rules clock rs e t').0) a.1 seen)

-- One round, on the values `on` and `hit` of its two tests.
round-Verdict :
    (clock : Clock) (r : FilterRule) (rs : List FilterRule) (e : FilterEngine)
    (t : FilteredTransaction) (on hit : Bool)
    → Rest clock rs
    → let noted = add_matched_rule t r.name in
      let flow =
        if not on
        then go_on e t
        else if hit
        then act (clock.instant r) r e noted r.action
        else go_on e t in
      let behind = matching clock t.transaction rs in
      Verdict
        (elim (on && hit) [ true ↦ r ∷ behind | false ↦ behind ])
        t
        (continue_with clock rs flow).0
round-Verdict clock r rs e t false hit rest = rest e t
round-Verdict clock r rs e t true false rest = rest e t
round-Verdict clock r rs e t true true rest =
    match-Verdict clock r rs t _
      (act-Acted (clock.instant r) r e (add_matched_rule t r.name) r.action refl) rest

apply_rules-Verdict : (clock : Clock) (rs : List FilterRule) → Rest clock rs
unfolding apply_rules apply_rule
apply_rules-Verdict clock [] e t = (refl, refl, refl, refl, refl)
apply_rules-Verdict clock (r ∷ rs) e t =
    round-Verdict clock r rs e t r.enabled (evaluate_rule (clock.hour r) r t.transaction)
      (apply_rules-Verdict clock rs)

-- On every engine and every clock: a transaction that comes through matched no rule that rejects,
-- is unchanged, and has the priority of the last matching rule that sets one (128 without one), the
-- tags of the matching rules and their names; one that is dropped matched a rule that rejects or
-- limits a rate.
pub filter_transaction-Verdict :
    (clock : Clock) (e : FilterEngine) (t : ParsedTransaction)
    → Verdict (matching clock t e.rules) (filtered t) (filter_transaction clock e t).0
unfolding filter_transaction
filter_transaction-Verdict clock e t =
    let stats = record (e.stats) { total_processed = add64 e.stats.total_processed 1 } in
    counted (apply_rules clock e.rules (record e { stats = stats }) (filtered t))
      (apply_rules-Verdict clock e.rules (record e { stats = stats }) (filtered t))
  where
    counted :
        (r : Option FilteredTransaction × FilterEngine)
        → Verdict (matching clock t e.rules) (filtered t) r.0
        → Verdict (matching clock t e.rules) (filtered t) (count_accepted r).0
    counted (none, e') v = v
    counted (some u, e') v = v
