-- ===== src/Filters/Templates.antt =====
-- `FilterRuleTemplates`: the rules that the program ships.
use botmev.Prelude.{true, none, some, List, [], ◌∷◌}
use botmev.Prelude.Int.{pos}
use botmev.Filters.Conditions.{
  FilterRule, accept, reject, tag, rate_limit, value_range, gas_price_range, target_type,
}

abbrev pub high_value_transactions : FilterRule
high_value_transactions = record {
  name = "high_value_transactions";
  enabled = true;
  priority = pos 100;
  conditions = value_range (some "1000000000000000000") none ∷ [];
  action = tag ("high_value" ∷ []);
  description = "Tag transactions with value >= 1 ETH";
}

abbrev pub dex_transactions : FilterRule
dex_transactions = record {
  name = "dex_transactions";
  enabled = true;
  priority = pos 90;
  conditions = target_type ("UniswapV2" ∷ "UniswapV3" ∷ "SushiSwap" ∷ "Curve" ∷ []) ∷ [];
  action = accept;
  description = "Accept all DEX transactions";
}

abbrev pub high_gas_price : FilterRule
high_gas_price = record {
  name = "high_gas_price";
  enabled = true;
  priority = pos 80;
  conditions = gas_price_range (some 100) none ∷ [];
  action = tag ("high_gas" ∷ []);
  description = "Tag transactions with gas price >= 100 gwei";
}

abbrev pub spam_filter : FilterRule
spam_filter = record {
  name = "spam_filter";
  enabled = true;
  priority = pos 200;
  conditions = value_range none (some "1000000000000000") ∷ gas_price_range none (some 10) ∷ [];
  action = reject;
  description = "Reject low-value, low-gas transactions (likely spam)";
}

abbrev pub rate_limit_per_address : FilterRule
rate_limit_per_address = record {
  name = "rate_limit_per_address";
  enabled = true;
  priority = pos 150;
  conditions = [];
  action = rate_limit 10;
  description = "Rate limit transactions to 10 per second";
}

abbrev pub get_default_rules : List FilterRule
get_default_rules =
    spam_filter ∷ dex_transactions ∷ high_value_transactions ∷ high_gas_price
    ∷ rate_limit_per_address ∷ []
