-- ===== src/Parser/Tests.antt =====
-- The parser on sample messages, and the theorems at concrete inputs.
use botmev.Prelude.{◌≡◌, ◌≢◌, refl, true, none, some, [], ◌∷◌, arith}
use botmev.Prelude.Results.{ok, err}
use botmev.Parser.Types.{trade, subscription_response, error_message}
use botmev.Parser.Defs.{invalid_json, parse_error}
use botmev.Parser.Message.{
  parse_message, parse_channel, parse_response, parse_error_message, validate_message,
  try_parse_subscription_response,
}
use botmev.Parser.Checks.{IsSound, parse_message-IsSound}
use botmev.Parser.RoundTrip.{trade_json, message_json, parse_message-trade_json}
use botmev.Parser.Samples.{
  Value, text, nil, object, reading, writer, reads, btc, eth, btc-IsValid, trades_message,
  confirmation,
}

parse_message-trade_json_example :
    parse_message (reading trades_message) "message"
    ≡ ok (record { channel = "trades"; data_of = trade btc })
parse_message-trade_json_example =
    parse_message-trade_json (reading trades_message) writer (reads trades_message) btc
      (trade_json writer eth ∷ []) (omega arith) btc-IsValid refl

-- A trade whose price is zero is refused.
zero_price :
    validate_message
      (reading nil)
      (record { channel = "trades"; data_of = trade (record btc { price = "0" }) })
    ≢ ok tt
unfolding validate_message
zero_price h = cc

parse_message-IsSound_example :
    IsSound (reading trades_message) (record { channel = "trades"; data_of = trade btc })
parse_message-IsSound_example =
    parse_message-IsSound (reading trades_message) "message" parse_message-trade_json_example

-- An error that is an object with an empty message is returned, though it is not valid.
abbrev empty_error_message : Value
empty_error_message = message_json writer "error" (object (("message", text "") ∷ []))

empty_error_passes :
    parse_message (reading empty_error_message) "message"
    ≡ ok (record {
      channel = "error";
      data_of = error_message (record { code = none; message = "" });
    })
unfolding parse_message parse_channel parse_error_message parse_error
empty_error_passes = refl

confirms :
    parse_message (reading confirmation) "message"
    ≡ ok (record {
      channel = "subscriptionResponse";
      data_of =
          subscription_response
            (record { subscription_type = "trades"; coin = "BTC"; success = true; error = none });
    })
unfolding parse_message parse_channel parse_response validate_message
confirms = refl

-- The older reader of confirmations finds no type and no coin in it.
older_reader :
    try_parse_subscription_response (reading confirmation) "message"
    ≡ some (record { subscription_type = ""; coin = ""; success = true; error = none })
unfolding try_parse_subscription_response
older_reader = refl

no_json : parse_message (reading nil) "{" ≡ err invalid_json
unfolding parse_message
no_json = refl
