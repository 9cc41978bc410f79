-- ===== src/Tests/Runtime.antt =====
-- Update over a host of cells.
use airgate_sdk.Prelude.{Result, ok, ◌≡◌, refl, ◌⊎◌, [], ◌∷◌, String}
use Prim.Native.String
use airgate_sdk.Runtime.{
  text_field, flag_field, find_field, update, update_loop, attempt, get_entry, read_entry,
  compare_and_swap, read_swapped, max_attempts,
}
use airgate_sdk.Runtime.Atomic.{IsReplaced, update-IsReplaced}
use airgate_sdk.Runtime.Attempts.{UpdateEnd, update-UpdateEnd}
use airgate_sdk.Runtime.Progress.{Overtakings, update-Overtakings}
use airgate_sdk.Tests.Changes.{put}
use airgate_sdk.Tests.Cells.{Cells, cell_host, cell_host-IsVersioned, cell_host-IsResponsive}

-- Another client writes the key between the first two calls.
abbrev busy : Cells
busy = record { history = put "plan" "old" ∷ []; later = [] ∷ (put "plan" "theirs" ∷ []) ∷ [] }

abbrev our_update : String → Result String String
our_update old = ok (String.◌++◌ old "+ours")

abbrev after_busy : Cells
after_busy = record {
  history = put "plan" "theirs+ours" ∷ put "plan" "theirs" ∷ put "plan" "old" ∷ [];
  later = [];
}

busy_updated : update cell_host busy "plan" our_update ≡ (after_busy, ok "theirs+ours")
unfolding update update_loop attempt get_entry read_entry compare_and_swap read_swapped text_field
    flag_field find_field
busy_updated = refl

update-IsReplaced_example :
    IsReplaced cell_host cell_host-IsVersioned "plan" our_update "theirs+ours" after_busy
update-IsReplaced_example =
    update-IsReplaced cell_host "plan" our_update cell_host-IsVersioned busy after_busy
      "theirs+ours" busy_updated

update-Overtakings_example :
    ((v : String) × ((update cell_host busy "plan" our_update).1 ≡ ok v))
    ⊎ Overtakings cell_host "plan" our_update cell_host-IsVersioned busy max_attempts
        (update cell_host busy "plan" our_update).0
update-Overtakings_example =
    update-Overtakings cell_host "plan" our_update cell_host-IsVersioned cell_host-IsResponsive
      (λ x. (String.◌++◌ x "+ours", refl)) busy

update-UpdateEnd_example :
    UpdateEnd cell_host "plan" our_update busy (update cell_host busy "plan" our_update)
update-UpdateEnd_example = update-UpdateEnd cell_host "plan" our_update busy
