-- ===== src/Tests/Api.antt =====
-- Requests to the dev server's API.
use airgate_sdk.Prelude.{ℤ, pos, true, Bool, String, some, arith}
use airgate_sdk.Dev.Accounts.Laws.{IsValid}
use airgate_sdk.Dev.Api.{serve_accounts}
use airgate_sdk.Dev.Api.Validity.{serve_accounts-IsValid}
use airgate_sdk.Tests.{light, two, two-IsValid}

abbrev parse : String → ℤ × Bool
parse text = (pos 2, true)

serve_accounts-IsValid_example :
    IsValid
      (serve_accounts parse two (record { method = "POST"; id_text = ""; decoded = some light })).0
serve_accounts-IsValid_example =
    serve_accounts-IsValid parse two
      (record { method = "POST"; id_text = ""; decoded = some light }) two-IsValid
      (omega arith, omega arith)
