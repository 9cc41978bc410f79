-- ===== src/Observer/Calls.antt =====
-- Every sequence of calls on an observer keeps it within maxEventBytes.
use airgate_sdk.Prelude.{List, [], ◌∷◌, arith}
use airgate_sdk.Outcome.{Bytes}
use airgate_sdk.Observer.{EventObserver, new_observer, write, finish, release}
use airgate_sdk.Observer.Bounds.{
  IsBounded, new_observer-IsBounded, write-IsBounded, finish-IsBounded,
}

release-IsBounded : (s : EventObserver) → IsBounded s → IsBounded (release s)
release-IsBounded s h = record {
  line_short = omega arith;
  event_short = omega arith;
  observed_short = h.observed_short;
}

pub data ObserverCall : Type 0 where
  written : Bytes → ObserverCall
  finished released : ObserverCall

unfoldable pub observe_call : EventObserver → ObserverCall → EventObserver
observe_call s (written p) = write s p
observe_call s finished = finish s
observe_call s released = release s

unfoldable pub observe_calls : EventObserver → List ObserverCall → EventObserver
unfolding observe_call
observe_calls s [] = s
observe_calls s (c ∷ calls) = observe_calls (observe_call s c) calls

observe_call-IsBounded :
    (s : EventObserver) (c : ObserverCall) → IsBounded s → IsBounded (observe_call s c)
unfolding observe_call
observe_call-IsBounded s (written p) h = write-IsBounded s p h
observe_call-IsBounded s finished h = finish-IsBounded s h
observe_call-IsBounded s released h = release-IsBounded s h

observe_calls_from :
    (calls : List ObserverCall) (s : EventObserver)
    → IsBounded s
    → IsBounded (observe_calls s calls)
unfolding observe_calls
observe_calls_from [] s h = h
observe_calls_from (c ∷ calls) s h =
    observe_calls_from calls (observe_call s c) (observe_call-IsBounded s c h)

-- After any sequence of write, finish and release on a new observer, the line and the event in hand
-- have at most maxEventBytes bytes, and so has each payload that was observed.
pub observe_calls-IsBounded :
    (calls : List ObserverCall) → IsBounded (observe_calls new_observer calls)
observe_calls-IsBounded calls = observe_calls_from calls new_observer new_observer-IsBounded
