-- ===== src/NativeCharges/Witnesses.antt =====
-- One session that was charged in full, and then measured.
use hack_the_north.Common.{◌≡◌, ◌≤◌, ◌-◌, ◌*◌, max, true, false, none, some, List, [], ◌∷◌}
use hack_the_north.NativeCharges.{
  Observation, Report, Reservation, observe_all, charged_total, settle,
}
use hack_the_north.NativeCharges.Laws.{recover_charges, settle_commits}

abbrev unmeasured : List Observation
unmeasured =
    record { session_id = 3; charged_ms = 240000; actual_ms = none; is_terminal = false } ∷ []

abbrev measured : Report
measured = record { session_id = 3; actual_ms = some 61500; is_terminal = true }

abbrev reservation : Reservation
reservation = record { reserved_seconds = 240; consumed_seconds = 0; released_seconds = 0 }

recover_charges_example :
    let total = charged_total (observe_all 240 (measured ∷ []) unmeasured) in
    let v = settle 240 none true total reservation in
    (charged_total unmeasured ≤ v.consumed_seconds * 1000)
    × (total ≤ v.consumed_seconds * 1000)
    × (0 ≤ v.consumed_seconds)
recover_charges_example = recover_charges 240 (measured ∷ []) unmeasured none true reservation

settle_commits_example :
    let v = settle 240 (some 61500) true 0 reservation in
    (max (v.reserved_seconds - v.released_seconds) v.consumed_seconds ≡ v.consumed_seconds)
    × (v.released_seconds ≤ v.reserved_seconds)
    × (61500 ≤ v.consumed_seconds * 1000)
settle_commits_example = settle_commits 240 (some 61500) true 0 reservation
