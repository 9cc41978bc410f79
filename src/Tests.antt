-- ===== src/Tests.antt =====
-- Values that the tests share. `F` is ℕ, an error is its text.
mod Wire
mod Stream
mod Gateway
mod Dev
mod Api
mod Dispatch
mod Unary
mod Trace
mod Observer
mod Changes
mod Cells
mod Runtime
mod Router
mod Info
mod Plans
mod Extension
use airgate_sdk.Prelude.{ℕ, ◌+◌, ◌*◌, String, none, pos, [], ◌∷◌, some, length, eqb_ℤ, refl, arith}
use airgate_sdk.Outcome.{OutcomeKind, UpstreamResponse, Usage, ForwardOutcome, BillingAdjustments}
use airgate_sdk.Wire.Verdicts.{no_outcome}
use airgate_sdk.Stream.Sending.{Transport}
use airgate_sdk.Gateway.Client.{Sink}
use airgate_sdk.Dev.Accounts.{DevAccount, AccountStore, find_account}
use airgate_sdk.Dev.Accounts.Laws.{IsValid}
use airgate_sdk.Dev.Scheduler.{Scheduler}

-- A transport that takes everything.
abbrev pub open_transport : Transport ℕ String
open_transport = record {
  answer = λ sent chunk. none;
  size = λ chunk. 64 + length chunk.payload + 32 * length chunk.headers;
  exhausted = "response metadata exceeds SDK limit";
  body_exhausted = "upstream body exceeds SDK limit";
}

-- A transport that breaks at once.
abbrev pub broken_transport : Transport ℕ String
broken_transport = record open_transport { answer = λ sent chunk. some "broken" }

-- An HTTP client that takes everything.
abbrev pub open_sink : Sink String
open_sink = record {
  accept = λ body bytes. (length bytes, none);
  add_header = λ k v h. (k, v ∷ []) ∷ h;
  failure_text = λ e. e;
  short_write = "short write";
}

abbrev pub succeeded : ForwardOutcome ℕ
succeeded = record no_outcome { kind = OutcomeKind.success; duration = pos 3000000 }

abbrev pub limited : ForwardOutcome ℕ
limited = record no_outcome {
  kind = OutcomeKind.account_rate_limited;
  retry_after = pos 30000000000;
}

abbrev pub light : DevAccount
light = record {
  id = pos 1;
  name = "a";
  account_type = "api_key";
  credentials = [];
  proxy_url = "";
  weight = pos 0;
}

abbrev pub heavy : DevAccount
heavy = record light { id = pos 2; name = "b"; weight = pos 2 }

abbrev pub two : AccountStore
two = record { file = none; accounts = light ∷ heavy ∷ []; next_id = pos 3 }

pub two-IsValid : IsValid two
unfolding find_account eqb_ℤ
two-IsValid = record { below = (omega arith, (omega arith, tt)); distinct = (refl, (refl, tt)) }

abbrev pub robin : Scheduler
robin = record { policy = "weighted_rr"; cooldown = λ id. none; counter = 4; pinned_id = pos 0 }

abbrev pub direct : Scheduler
direct = record robin { policy = "none" }
