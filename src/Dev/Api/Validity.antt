-- ===== src/Dev/Api/Validity.antt =====
-- The account store under the requests of the API.
use airgate_sdk.Prelude.{ℤ, Bool, String, Option, none, some, arith}
use airgate_sdk.Dev.Accounts.{DevAccount, AccountStore}
use airgate_sdk.Dev.Accounts.Laws.{IsValid, HasRoom, create_lem, update_lem, delete_lem}
use airgate_sdk.Dev.Api.{
  AccountRequest, create_account, update_account, delete_account, serve_accounts,
}

module _ (parse : String → ℤ × Bool) where
  create_account-IsValid :
      (s : AccountStore) (a : Option DevAccount)
      → IsValid s
      → HasRoom s
      → IsValid (create_account parse s a).0
  unfolding create_account
  create_account-IsValid s none v room = v
  create_account-IsValid s (some a) v room = (create_lem s a v room).3

  update_account-IsValid :
      (s : AccountStore) (id : ℤ) (a : Option DevAccount)
      → IsValid s
      → IsValid (update_account parse s id a).0
  unfolding update_account
  update_account-IsValid s id none v = v
  update_account-IsValid s id (some a) v = (update_lem s id a v).2

  delete_account-IsValid :
      (s : AccountStore) (id : ℤ) → IsValid s → IsValid (delete_account parse s id).0
  unfolding delete_account
  delete_account-IsValid s id v = (delete_lem s id v).2

  -- A request to the accounts API keeps the store valid, whatever it asks, as long as ids are left.
  pub serve_accounts-IsValid :
      (s : AccountStore) (r : AccountRequest)
      → IsValid s
      → HasRoom s
      → IsValid (serve_accounts parse s r).0
  unfolding serve_accounts
  serve_accounts-IsValid s r v room = ground (
    arith,
    v,
    create_account-IsValid s r.decoded v room,
    update_account-IsValid s (parse r.id_text).0 r.decoded v,
    delete_account-IsValid s (parse r.id_text).0 v,
  )
