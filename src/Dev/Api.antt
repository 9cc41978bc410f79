-- ===== src/Dev/Api.antt =====
-- The HTTP API of the dev server: AccountHandler of devkit/devserver/accounts.go and
-- SchedulerHandler of scheduler.go, once the path is trimmed. Decoding a body is not part of the
-- repository: a handler gets what was decoded, `none` if that failed. `parse` is strconv.ParseInt, with
-- its value and whether it succeeded. Writing the reply, and getStatus, are left out.
pub mod Validity
pub mod Weights
use airgate_sdk.Prelude.{
  ℤ, pos, ltb_ℤ, String, Bool, true, false, Option, none, some, List, if◌then◌else◌,
}
use text.Mathlib.Text.{◌==◌}
use airgate_sdk.Dev.Accounts.{DevAccount, AccountStore, list, get, create, update, delete}
use airgate_sdk.Dev.Scheduler.{
  Scheduler, schedule_none, schedule_weighted_rr, set_policy, set_pinned,
}

pub data AccountReply : Type 0 where
  accounts : List DevAccount → AccountReply
  account : DevAccount → AccountReply
  created : DevAccount → AccountReply
  no_content : AccountReply
  not_found : AccountReply
  invalid_json : AccountReply
  method_not_allowed : AccountReply

pub record AccountRequest : Type 0 where
  pub method : String
  pub id_text : String
  pub decoded : Option DevAccount

found_or_not : Option DevAccount → AccountReply
found_or_not none = not_found
found_or_not (some a) = account a

module _ (parse : String → ℤ × Bool) where
  get_account : AccountStore → AccountRequest → AccountReply
  unfolding found_or_not
  get_account s r =
      if r.id_text == "" then accounts (list s) else found_or_not (get s (parse r.id_text).0)

  unfoldable pub create_account : AccountStore → Option DevAccount → AccountStore × AccountReply
  create_account s none = (s, invalid_json)
  create_account s (some a) = let (s', made) = create s a in (s', created made)

  unfoldable pub update_account : AccountStore → ℤ → Option DevAccount → AccountStore × AccountReply
  unfolding found_or_not
  update_account s id none = (s, invalid_json)
  update_account s id (some a) = let (s', r) = update s id a in (s', found_or_not r)

  unfoldable pub delete_account : AccountStore → ℤ → AccountStore × AccountReply
  delete_account s id =
      let (s', there) = delete s id in (s', (if there then no_content else not_found))

  -- AccountHandler.ServeHTTP
  unfoldable pub serve_accounts : AccountStore → AccountRequest → AccountStore × AccountReply
  unfolding get_account
  serve_accounts s r =
      if r.method == "GET"
      then (s, get_account s r)
      else if r.method == "POST"
      then create_account s r.decoded
      else if r.method == "PUT"
      then update_account s (parse r.id_text).0 r.decoded
      else if r.method == "DELETE"
      then delete_account s (parse r.id_text).0
      else (s, method_not_allowed)

pub data SchedulerReply : Type 0 where
  policy_set : String → SchedulerReply
  pinned : ℤ → SchedulerReply
  weight_set : ℤ → ℤ → SchedulerReply
  bad_request : String → SchedulerReply
  no_such_account : SchedulerReply

unfoldable pub serve_policy : Scheduler → Option String → Scheduler × SchedulerReply
serve_policy s none = (s, bad_request "invalid json")
serve_policy s (some policy) =
    if policy == schedule_none
    then (set_policy s policy, policy_set policy)
    else if policy == schedule_weighted_rr
    then (set_policy s policy, policy_set policy)
    else (s, bad_request "unknown policy, use: none, weighted_rr")

-- A positive id must be an account's.
unfoldable pub serve_pinned : AccountStore → Scheduler → Option ℤ → Scheduler × SchedulerReply
serve_pinned store s none = (s, bad_request "invalid json")
serve_pinned store s (some id) =
    if ltb_ℤ (pos 0) id
    then elim (get store id) [ none ↦ (s, no_such_account) | some a ↦ (set_pinned s id, pinned id) ]
    else (set_pinned s id, pinned id)

-- setWeight, once the id is parsed.
unfoldable pub weigh : AccountStore → ℤ → Option ℤ → AccountStore × SchedulerReply
weigh store id none = (store, bad_request "invalid json")
weigh store id (some weight) =
    if ltb_ℤ weight (pos 0)
    then (store, bad_request "weight must be >= 0")
    else elim (get store id) [
      | none ↦ (store, no_such_account)
      | some a ↦ ((update store id (record a { weight = weight })).0, weight_set id weight)
    ]

unfoldable pub serve_weight :
    (String → ℤ × Bool) → AccountStore → String → Option ℤ → AccountStore × SchedulerReply
serve_weight parse store id_text weight =
    let (id, parsed) = parse id_text in
    if parsed then weigh store id weight else (store, bad_request "invalid id")
