-- ===== src/Adapter/Swaps.antt =====
-- When a trade is adapted, and to what.
use botmev.Prelude.{
  ℕ, ◌-◌, ◌/◌, ◌^◌, ◌≡◌, ◌↔◌, refl, sym, ap, ◌∙◌, false, Option, some, [], ◌∷◌, String, arith,
  if-cases, if◌then◌else◌,
}
use mathlib.Core.Path.{subst}
use botmev.Prelude.Dict.{Dict, lookup, insert, str_eq}
use botmev.Prelude.Floats.{F64}
use botmev.Prelude.Results.{ok, >>=-ok, ok_or, ok_or-ok, ok_inj, unwrap_or}
use botmev.Prelude.Text.{concat}
use botmev.Parser.Types.{TradeSide, buy, sell, TradeData}
use botmev.Adapter.Defs.{
  TradeDataAdapter, AdaptedTradeEvent, unknown_coin, missing_usdc, new, parse_mapping,
  map_coin_to_address, get_token_decimals, scaled_value, float_to_u256, amounts_by,
  calculate_swap_amounts, create_swap_data, adapt_trade, event_of, swap_of, tokens_by,
}

-- Tokens with six decimals in place of eighteen.
abbrev pub decimals_of : String → ℕ
decimals_of coin = if str_eq "USDC" coin then 6 else if str_eq "USDT" coin then 6 else 18

table-decimals :
    (coin : String) → unwrap_or 18 (lookup coin (("USDC", 6) ∷ ("USDT", 6) ∷ [])) ≡ decimals_of coin
unfolding lookup
table-decimals coin = ground arith

new-decimals :
    (from_str : String → Option String) (chain_id : ℕ) (mapping : Dict String)
    {a : TradeDataAdapter}
    → new from_str chain_id mapping ≡ ok a
    → (coin : String) → get_token_decimals coin a ≡ decimals_of coin
unfolding new get_token_decimals lookup insert
new-decimals from_str chain_id mapping {a} h coin =
    let (parsed, _, is) = >>=-ok (parse_mapping from_str mapping []) _ {b = a} h in
    let made : record {
      chain_id = chain_id;
      token_mapping = parsed;
      token_decimals = ("USDC", 6) ∷ ("USDT", 6) ∷ [];
    }
        ≡ a =
      cc in
    ap (λ (b : TradeDataAdapter). unwrap_or 18 (lookup coin b.token_decimals)) (sym made)
    ∙ table-decimals coin

module _ {F : Type 0} (f : F64 F) where
  -- The number `n` is `v`, which is not negative, times `10^d`, which fits into 128 bits.
  pub record IsScaled (v : F) (d n : ℕ) : Type 0 where
    pub not_negative : f.less v (f.decimal 0 0) ≡ false
    pub fits : f.less (f.of_u128 (2 ^ 128 - 1)) (f.mul v (f.powi (f.decimal 10 0) d)) ≡ false
    pub exact : n ≡ f.to_u128 (f.mul v (f.powi (f.decimal 10 0) d))

  float_to_u256-IsScaled : (v : F) (d : ℕ) {n : ℕ} → float_to_u256 f v d ≡ ok n → IsScaled v d n
  unfolding float_to_u256
  float_to_u256-IsScaled v d {n} h =
      if-cases (f.less v (f.decimal 0 0)) (λ _ e. cc)
        (λ negative.
          if-cases (f.less (f.of_u128 (2 ^ 128 - 1)) (scaled_value f v d)) (λ _ e. cc)
            (λ large e. record { not_negative = negative; fits = large; exact = cc }))
        h

  IsScaled-float_to_u256 : (v : F) (d n : ℕ) → IsScaled v d n → float_to_u256 f v d ≡ ok n
  unfolding float_to_u256
  IsScaled-float_to_u256 v d n h = rw (h.not_negative, h.fits) (ap ok (sym h.exact))

  -- What a trade becomes, with the amounts of the dollars and of the coin.
  abbrev pub event_with : TradeSide → TradeData F → String → String → ℕ → ℕ → AdaptedTradeEvent F
  event_with side t usdc coin usdc_amount coin_amount = record {
    hash = concat "hl_trade_" t.trade_id;
    sender = "0x0000000000000000000000000000000000000001";
    to = "0x0000000000000000000000000000000000000002";
    value = 0;
    gas_price = 0;
    timestamp = t.timestamp / 1000;
    swap_data = some (elim side [
      | buy ↦ record {
        dex = "HyperLiquid";
        token_in = usdc;
        token_out = coin;
        amount_in = usdc_amount;
        amount_out = coin_amount;
        price = t.price;
      }
      | sell ↦ record {
        dex = "HyperLiquid";
        token_in = coin;
        token_out = usdc;
        amount_in = coin_amount;
        amount_out = usdc_amount;
        price = t.price;
      }
    ]);
  }

  -- What becomes of a trade, where a token has `decimals` of them.
  pub record Adapted (decimals : String → ℕ) (t : TradeData F) (a : TradeDataAdapter)
      (e : AdaptedTradeEvent F) : Type 0 where
    pub usdc : String
    pub coin : String
    pub usdc_mapped : lookup "USDC" a.token_mapping ≡ some usdc
    pub coin_mapped : lookup t.coin a.token_mapping ≡ some coin
    pub usdc_amount : ℕ
    pub coin_amount : ℕ
    pub usdc_scaled : IsScaled (f.mul t.price t.size) (decimals "USDC") usdc_amount
    pub coin_scaled : IsScaled t.size (decimals t.coin) coin_amount
    pub is : e ≡ event_with t.side t usdc coin usdc_amount coin_amount

  -- Both amounts, whichever is computed first.
  amounts_by-ok :
      (side : TradeSide) (u : F) (d : ℕ) (c : F) (b : ℕ) {amounts : ℕ × ℕ}
      → amounts_by f side u d c b ≡ ok amounts
      → (m : ℕ) × (n : ℕ) × (float_to_u256 f u d ≡ ok m)
        × (float_to_u256 f c b ≡ ok n)
        × (amounts ≡ elim side [ buy ↦ (m, n) | sell ↦ (n, m) ])
  amounts_by-ok buy u d c b {amounts} h =
      let (m, hm, h1) = >>=-ok (float_to_u256 f u d) _ {b = amounts} h in
      let (n, hn, h2) = >>=-ok (float_to_u256 f c b) _ {b = amounts} h1 in (m, n, hm, hn, cc)
  amounts_by-ok sell u d c b {amounts} h =
      let (n, hn, h1) = >>=-ok (float_to_u256 f c b) _ {b = amounts} h in
      let (m, hm, h2) = >>=-ok (float_to_u256 f u d) _ {b = amounts} h1 in (m, n, hm, hn, cc)

  event-event_with :
      (t : TradeData F) (side : TradeSide) (usdc coin : String) (m n : ℕ)
      → t.side ≡ side
      → event_of f t (
          swap_of f t (tokens_by f t.side usdc coin) (elim t.side [ buy ↦ (m, n) | sell ↦ (n, m) ]))
        ≡ event_with t.side t usdc coin m n
  event-event_with t buy usdc coin m n h = rw h
  event-event_with t sell usdc coin m n h = rw h

  pub adapt_trade-Adapted :
      (t : TradeData F) (a : TradeDataAdapter) {e : AdaptedTradeEvent F}
      → adapt_trade f t a ≡ ok e
      → Adapted (λ c. get_token_decimals c a) t a e
  unfolding adapt_trade create_swap_data calculate_swap_amounts map_coin_to_address
  adapt_trade-Adapted t a {e} h =
      let (swap, h1, he) = >>=-ok (create_swap_data f t a) _ {b = e} h in
      let (coin, hc, h2) =
        >>=-ok (ok_or unknown_coin (map_coin_to_address t.coin a)) _ {b = swap} h1 in
      let (usdc, hu, h3) =
        >>=-ok (ok_or missing_usdc (map_coin_to_address "USDC" a)) _ {b = swap} h2 in
      let (amounts, ha, h4) = >>=-ok (calculate_swap_amounts f t a) _ {b = swap} h3 in
      let (m, n, hm, hn, is) =
        amounts_by-ok t.side (f.mul t.price t.size) (get_token_decimals "USDC" a) t.size
          (get_token_decimals t.coin a) {amounts = amounts} ha in
      record {
        usdc = usdc;
        coin = coin;
        usdc_mapped = ok_or-ok (map_coin_to_address "USDC" a) missing_usdc hu;
        coin_mapped = ok_or-ok (map_coin_to_address t.coin a) unknown_coin hc;
        usdc_amount = m;
        coin_amount = n;
        usdc_scaled =
            float_to_u256-IsScaled (f.mul t.price t.size) (get_token_decimals "USDC" a) {n = m} hm;
        coin_scaled = float_to_u256-IsScaled t.size (get_token_decimals t.coin a) {n = n} hn;
        is =
            sym (ok_inj he)
            ∙ ap (event_of f t)
                (sym (ok_inj h4) ∙ ap (swap_of f t (tokens_by f t.side usdc coin)) is)
            ∙ event-event_with t t.side usdc coin m n refl;
      }

  amounts_by-both :
      (side : TradeSide) (u : F) (d : ℕ) (c : F) (b m n : ℕ)
      → float_to_u256 f u d ≡ ok m
      → float_to_u256 f c b ≡ ok n
      → amounts_by f side u d c b ≡ ok (elim side [ buy ↦ (m, n) | sell ↦ (n, m) ])
  amounts_by-both buy u d c b m n hm hn = rw (hm, hn)
  amounts_by-both sell u d c b m n hm hn = rw (hn, hm)

  pub Adapted-adapt_trade :
      (t : TradeData F) (a : TradeDataAdapter) (e : AdaptedTradeEvent F)
      → Adapted (λ c. get_token_decimals c a) t a e
      → adapt_trade f t a ≡ ok e
  unfolding adapt_trade create_swap_data calculate_swap_amounts map_coin_to_address
  Adapted-adapt_trade t a e h =
      let hm =
        IsScaled-float_to_u256 (f.mul t.price t.size) (get_token_decimals "USDC" a) h.usdc_amount
          h.usdc_scaled in
      let hn =
        IsScaled-float_to_u256 t.size (get_token_decimals t.coin a) h.coin_amount h.coin_scaled in
      let both =
        amounts_by-both t.side (f.mul t.price t.size) (get_token_decimals "USDC" a) t.size
          (get_token_decimals t.coin a) h.usdc_amount h.coin_amount hm hn in
      rw (h.coin_mapped, h.usdc_mapped, both)
        (ap ok
          (event-event_with t t.side h.usdc h.coin h.usdc_amount h.coin_amount refl ∙ sym h.is))

  -- With an adapter that `new` has made: a trade is adapted exactly when the coin and the dollar have
  -- addresses and neither the size nor the value, which is the price times the size, is negative or
  -- too large for 128 bits in units of its token (of 6 decimals for USDC and USDT, else of 18). A buy
  -- then is a swap of the value in dollars for the size in coins, a sell one of the size for the value.
  pub adapt_trade_iff :
      (from_str : String → Option String) (chain_id : ℕ) (mapping : Dict String)
      (a : TradeDataAdapter)
      → new from_str chain_id mapping ≡ ok a
      → (t : TradeData F) (e : AdaptedTradeEvent F)
      → (adapt_trade f t a ≡ ok e) ↔ Adapted decimals_of t a e
  adapt_trade_iff from_str chain_id mapping a made t e =
      let same : (λ c. get_token_decimals c a) ≡ decimals_of =
        λ i c. new-decimals from_str chain_id mapping {a = a} made c i in
      (
        λ h. subst (λ d. Adapted d t a e) same (adapt_trade-Adapted t a {e = e} h),
        λ h. Adapted-adapt_trade t a e (subst (λ d. Adapted d t a e) (sym same) h),
      )
