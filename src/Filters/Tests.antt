-- ===== src/Filters/Tests.antt =====
-- The rule templates of the source, runs of the engine, and the theorems at concrete inputs.
use botmev.Prelude.{ℕ, ◌≡◌, refl, none, some, List, [], ◌∷◌}
use botmev.Prelude.Dict.{lookup, insert}
use botmev.Types.{ParsedTransaction, TargetType}
use botmev.Filters.Conditions.{evaluate_rule}
use botmev.Filters.Limiter.{RateLimiter, allow}
use botmev.Filters.Limiter
use botmev.Filters.Engine
use botmev.Filters.Engine.{
  FilterEngine, Clock, Request, filters, loads, enables, resets, load_rules, filter_transaction,
  handle_all, apply_rules, apply_rule, sort_rules, filtered,
}
use botmev.Filters.Accounting.{IsBalanced, handle_all-IsBalanced}
use botmev.Filters.Verdict.{Verdict, matching, filter_transaction-Verdict}
use botmev.Filters.Window.{allowed_count}
use botmev.Filters.Templates.{
  get_default_rules, spam_filter, rate_limit_per_address, high_value_transactions, dex_transactions,
  high_gas_price,
}

-- 0.5 ETH at 20 gwei into a Uniswap V2 pool.
abbrev swap : ParsedTransaction
swap = record {
  transaction = record {
    hash = "0xa1";
    sender = "0x456";
    to = some "0x789";
    value = "500000000000000000";
    gas_price = "20000000000";
    gas_limit = "210000";
    nonce = 1;
    input = "0x38ed1739";
    timestamp = 0;
  };
  decoded_input = none;
  target_type = TargetType.uniswap_v2;
  processing_time_ms = 5;
}

-- A dust transfer at 5 gwei.
abbrev dust : ParsedTransaction
dust = record swap {
  transaction = record (swap.transaction) { value = "1000"; gas_price = "5000000000" };
  target_type = TargetType.unknown;
}

abbrev noon : Clock
noon = record { instant = λ r. 0; hour = λ r. 12 }

abbrev loaded : FilterEngine
loaded = load_rules 0 Engine.new get_default_rules

sorted_by_priority :
    loaded.rules
    ≡ spam_filter ∷ rate_limit_per_address ∷ high_value_transactions ∷ dex_transactions
      ∷ high_gas_price ∷ []
unfolding load_rules Engine.new
sorted_by_priority = refl

dust_is_rejected : (filter_transaction noon loaded dust).0 ≡ none
unfolding filter_transaction apply_rules apply_rule evaluate_rule load_rules Engine.new
dust_is_rejected = refl

swap_is_accepted :
    (filter_transaction noon loaded swap).0
    ≡ some (record {
      transaction = swap;
      priority = 255;
      tags = [];
      matched_rules = "rate_limit_per_address" ∷ "dex_transactions" ∷ [];
    })
unfolding filter_transaction apply_rules apply_rule evaluate_rule load_rules Engine.new lookup
    insert allow Limiter.new
swap_is_accepted = refl

-- Two buckets of tokens pass within one second when a refill falls into it.
abbrev two_per_second : RateLimiter
two_per_second = record { max_per_second = 2; tokens = 2; last_refill = 0 }

abbrev burst : List ℕ
burst = 999_999_999 ∷ 999_999_999 ∷ 1_000_000_000 ∷ 1_000_000_000 ∷ 1_000_000_001 ∷ []

burst_of_four : allowed_count two_per_second burst ≡ 4
unfolding allowed_count allow
burst_of_four = refl

handle_all-IsBalanced_example :
    IsBalanced (
      handle_all Engine.new
        (loads 0 get_default_rules ∷ filters noon dust ∷ filters noon swap ∷ []))
unfolding Engine.new
handle_all-IsBalanced_example =
    handle_all-IsBalanced Engine.new
      (loads 0 get_default_rules ∷ filters noon dust ∷ filters noon swap ∷ []) refl

filter_transaction-Verdict_example :
    Verdict
      (matching noon swap loaded.rules)
      (filtered swap)
      (filter_transaction noon loaded swap).0
filter_transaction-Verdict_example = filter_transaction-Verdict noon loaded swap
