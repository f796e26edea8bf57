-- ===== src/NativeJournal/Witnesses.antt =====
-- The merge of the native journal at a concrete resource.
use hack_the_north.Common.{◌≡◌, ◌⊎◌, refl, true, false, none, some, ok, coalesce}
use hack_the_north.NativeJournal.{
  NativeState, NativeResource, transition_ok, combined, admitted, checked, identity_differs,
  predispatch_rollback, merge_native_resource,
}
use hack_the_north.NativeJournal.Merging.{Consistent, Keeps, merge-Keeps, merge_state}

abbrev quarantined_upload : NativeResource
quarantined_upload = record {
  archive_sha256 = 1;
  state = NativeState.quarantined;
  extension_id = none;
  session_allocation_attempted = false;
  session_id = none;
}

-- The delayed answer to the upload.
abbrev late_upload : NativeResource
late_upload = record quarantined_upload { state = NativeState.uploaded; extension_id = some 4 }

abbrev late_merge : NativeResource
late_merge = record quarantined_upload { extension_id = some 4 }

merges : merge_native_resource quarantined_upload late_upload false ≡ ok late_merge
unfolding merge_native_resource identity_differs combined admitted transition_ok checked
    predispatch_rollback
merges = refl

merge-Keeps_example :
    Consistent late_merge
    × Keeps quarantined_upload late_merge
    × (late_merge.extension_id ≡ coalesce quarantined_upload.extension_id late_upload.extension_id)
    × (late_merge.session_id ≡ coalesce quarantined_upload.session_id late_upload.session_id)
merge-Keeps_example = merge-Keeps quarantined_upload late_upload false late_merge merges

merge_state_example :
    (((false ≡ true) × (late_merge.state ≡ NativeState.quarantined))
      ⊎ ((false ≡ false) × (transition_ok NativeState.quarantined late_merge.state ≡ true)))
    × ((quarantined_upload.session_allocation_attempted ≡ false)
        ⊎ ((late_merge.session_allocation_attempted ≡ true)
            ⊎ ((quarantined_upload.state ≡ NativeState.allocated)
                × (late_merge.state ≡ NativeState.uploaded)
                × (coalesce quarantined_upload.session_id late_upload.session_id ≡ none))))
merge_state_example = merge_state quarantined_upload late_upload false late_merge merges
