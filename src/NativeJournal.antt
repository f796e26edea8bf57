-- ===== src/NativeJournal.antt =====
-- src/server/worker/native-journal.ts, with the schema of src/server/execution/native-resources.ts:
-- the durable journal of the browser extension that a native session uploads, uses and deletes.
-- UUIDs and digests are compared for equality only, and are numbers here.
pub mod Merging
mod Witnesses
use hack_the_north.Common.{
  ℕ, Bool, true, false, not, ◌&&◌, ◌||◌, Option, none, some, List, [], ◌∷◌, Result, ok, err, ◌>>=◌,
  ◌>>◌, throw_if, ◌==◌, if◌then◌else◌, is_some, coalesce,
}

pub data NativeState : Type 0 where
  upload_intent not_dispatched uploaded upload_unconfirmed allocated quarantined : NativeState
  delete_intent deleted delete_unconfirmed : NativeState

pub record NativeResource : Type 0 where
  pub archive_sha256 : ℕ
  pub state : NativeState
  pub extension_id : Option ℕ
  pub session_allocation_attempted : Bool
  pub session_id : Option ℕ

pub data NativeError : Type 0 where
  identity_changed state_regressed allocation_regressed invalid_session missing_extension :
      NativeError

-- `transitions[previous.state].includes(result.state)`.
unfoldable pub transition_ok : NativeState → NativeState → Bool
transition_ok upload_intent upload_intent = true
transition_ok upload_intent not_dispatched = true
transition_ok upload_intent uploaded = true
transition_ok upload_intent upload_unconfirmed = true
transition_ok upload_intent quarantined = true
transition_ok not_dispatched not_dispatched = true
transition_ok uploaded uploaded = true
transition_ok uploaded allocated = true
transition_ok uploaded quarantined = true
transition_ok uploaded delete_intent = true
transition_ok upload_unconfirmed upload_unconfirmed = true
transition_ok upload_unconfirmed quarantined = true
transition_ok allocated allocated = true
transition_ok allocated uploaded = true
transition_ok allocated quarantined = true
transition_ok allocated delete_intent = true
transition_ok quarantined quarantined = true
transition_ok quarantined delete_intent = true
transition_ok delete_intent delete_intent = true
transition_ok delete_intent deleted = true
transition_ok delete_intent delete_unconfirmed = true
transition_ok delete_intent quarantined = true
transition_ok delete_unconfirmed delete_unconfirmed = true
transition_ok delete_unconfirmed delete_intent = true
transition_ok delete_unconfirmed deleted = true
transition_ok delete_unconfirmed quarantined = true
transition_ok deleted deleted = true
transition_ok _ _ = false

abbrev pub is_quarantined : NativeState → Bool
is_quarantined quarantined = true
is_quarantined _ = false

abbrev pub is_uploaded : NativeState → Bool
is_uploaded uploaded = true
is_uploaded _ = false

abbrev pub is_allocated : NativeState → Bool
is_allocated allocated = true
is_allocated _ = false

-- `a && b && a !== b`.
abbrev pub both_differ : Option ℕ → Option ℕ → Bool
both_differ (some a) (some b) = not (a == b)
both_differ _ _ = false

-- The states that name an extension.
abbrev pub needs_extension : NativeState → Bool
needs_extension uploaded = true
needs_extension allocated = true
needs_extension delete_intent = true
needs_extension deleted = true
needs_extension delete_unconfirmed = true
needs_extension _ = false

-- The resource before the state is checked.
unfoldable pub combined : NativeResource → NativeResource → Bool → NativeResource
combined previous input discovery = record {
  archive_sha256 = input.archive_sha256;
  state = if discovery then NativeState.quarantined else input.state;
  extension_id = coalesce previous.extension_id input.extension_id;
  session_allocation_attempted =
      if discovery
      then previous.session_allocation_attempted || input.session_allocation_attempted
      else input.session_allocation_attempted;
  session_id = coalesce previous.session_id input.session_id;
}

-- A late upload may arrive once cleanup has quarantined the resource.
unfoldable pub admitted : NativeResource → NativeResource → Bool → Result NativeError NativeResource
unfolding transition_ok
admitted previous result discovery =
    if discovery || transition_ok previous.state result.state
    then ok result
    else if is_quarantined previous.state && is_uploaded result.state
    then ok (record result { state = NativeState.quarantined })
    else err state_regressed

unfoldable pub identity_differs : NativeResource → NativeResource → Bool
identity_differs previous input =
    not (previous.archive_sha256 == input.archive_sha256)
    || (both_differ previous.extension_id input.extension_id
        || both_differ previous.session_id input.session_id)

unfoldable pub predispatch_rollback : NativeResource → NativeResource → NativeResource → Bool
predispatch_rollback previous input result =
    is_allocated previous.state
    && (is_uploaded result.state
        && (not (is_some previous.session_id) && not (is_some input.session_id)))

-- The last three tests of `mergeNativeResource`.
unfoldable pub checked :
    NativeResource → NativeResource → NativeResource → Result NativeError NativeResource
unfolding predispatch_rollback
checked previous input result =
    if previous.session_allocation_attempted
      && (not result.session_allocation_attempted
          && not (predispatch_rollback previous input result))
    then err allocation_regressed
    else if is_some result.session_id && not result.session_allocation_attempted
    then err invalid_session
    else if needs_extension result.state && not (is_some result.extension_id)
    then err missing_extension
    else ok result

unfoldable pub merge_native_resource :
    NativeResource → NativeResource → Bool → Result NativeError NativeResource
unfolding combined admitted checked identity_differs
merge_native_resource previous input discovery = do
  throw_if (identity_differs previous input) identity_changed
  result ← admitted previous (combined previous input discovery) discovery
  checked previous input result
