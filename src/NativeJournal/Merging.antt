-- ===== src/NativeJournal/Merging.antt =====
-- What a merge of the native journal (src/server/worker/native-journal.ts) keeps and what it can
-- return, alone and over a whole journal.
use hack_the_north.Common.{
  ◌≡◌, ◌⊎◌, refl, sym, ap, subst, ◌∙◌, inl, inr, Bool, true, false, none, ok, arith, is_some,
  coalesce, throw_if-eq-ok, >>=-eq-ok,
}
use hack_the_north.NativeJournal.{
  NativeState, NativeResource, transition_ok, NativeError, needs_extension, combined, admitted,
  checked, identity_differs, predispatch_rollback, merge_native_resource,
}

-- A resource with a session was allocated, and a state that names an extension has one.
pub record Consistent (r : NativeResource) : Type 0 where
  pub session : (is_some r.session_id ≡ false) ⊎ (r.session_allocation_attempted ≡ true)
  pub extension : (needs_extension r.state ≡ false) ⊎ (is_some r.extension_id ≡ true)

-- What is known of a resource stays known.
pub record Keeps (a b : NativeResource) : Type 0 where
  pub archive : b.archive_sha256 ≡ a.archive_sha256
  pub extension : coalesce a.extension_id b.extension_id ≡ b.extension_id
  pub session : coalesce a.session_id b.session_id ≡ b.session_id

module _ (a b : NativeResource) where
  identity_agrees :
      identity_differs a b ≡ false
      → (a.archive_sha256 ≡ b.archive_sha256)
        × (coalesce a.extension_id (coalesce a.extension_id b.extension_id)
            ≡ coalesce a.extension_id b.extension_id)
        × (coalesce a.session_id (coalesce a.session_id b.session_id)
            ≡ coalesce a.session_id b.session_id)
  unfolding identity_differs
  identity_agrees e = (ground arith, ground arith, ground arith)

  -- The last tests let a result through only as it is.
  record Checked (r : NativeResource) : Type 0 where
    consistent : Consistent r
    allocation :
        (a.session_allocation_attempted ≡ false)
        ⊎ ((r.session_allocation_attempted ≡ true)
            ⊎ ((a.state ≡ NativeState.allocated)
                × (r.state ≡ NativeState.uploaded)
                × (coalesce a.session_id b.session_id ≡ none)))

  checked-Checked : (x r : NativeResource) → checked a b x ≡ ok r → (x ≡ r) × Checked r
  unfolding checked predispatch_rollback
  checked-Checked x r e =
      let same : x ≡ r = ground arith in
      (same, subst Checked same (record { consistent = ground arith; allocation = ground arith }))

  -- What was combined is taken as it is, or quarantined.
  admitted_cases :
      (discovery : Bool) (c r : NativeResource)
      → admitted a c discovery ≡ ok r
      → ((r ≡ c)
          × ((discovery ≡ true) ⊎ ((discovery ≡ false) × (transition_ok a.state r.state ≡ true))))
        ⊎ ((r ≡ record c { state = NativeState.quarantined })
            × (discovery ≡ false)
            × (a.state ≡ NativeState.quarantined))
  unfolding admitted transition_ok
  admitted_cases discovery c r e = ground arith

  module _ (discovery : Bool) (r : NativeResource) where
    record Passed : Type 0 where
      same : identity_differs a b ≡ false
      taken : admitted a (combined a b discovery) discovery ≡ ok r
      is_checked : Checked r

    merge-Passed : merge_native_resource a b discovery ≡ ok r → Passed
    unfolding merge_native_resource
    merge-Passed e =
        let (same, e₁) = throw_if-eq-ok (identity_differs a b) NativeError.identity_changed _ e in
        let (x, taken, e₂) = >>=-eq-ok (admitted a (combined a b discovery) discovery) _ e₁ in
        let (one, is_checked) = checked-Checked x r e₂ in
        record { same = same; taken = taken ∙ ap ok one; is_checked = is_checked }

    -- Whatever is merged, discovered or not, the result is consistent, keeps the archive and every
    -- identity that was known, and takes the identities that are new from the input.
    pub merge-Keeps :
        merge_native_resource a b discovery ≡ ok r
        → Consistent r
          × Keeps a r
          × (r.extension_id ≡ coalesce a.extension_id b.extension_id)
          × (r.session_id ≡ coalesce a.session_id b.session_id)
    unfolding combined
    merge-Keeps e =
        let p = merge-Passed e in
        let (archive, extension, session) = identity_agrees p.same in
        let (same_archive, same_extension, same_session) = fields p.taken in
        (
          p.is_checked.consistent,
          record {
            archive = same_archive ∙ sym archive;
            extension = rw same_extension extension;
            session = rw same_session session;
          },
          same_extension,
          same_session,
        )
      where
        fields :
            admitted a (combined a b discovery) discovery ≡ ok r
            → (r.archive_sha256 ≡ b.archive_sha256)
              × (r.extension_id ≡ coalesce a.extension_id b.extension_id)
              × (r.session_id ≡ coalesce a.session_id b.session_id)
        fields t = elim (admitted_cases discovery (combined a b discovery) r t) [
          | inl (as_is, _) ↦ rw as_is (refl, refl, refl)
          | inr (late, _, _) ↦ rw late (refl, refl, refl)
        ]

    -- A merge that is no discovery moves the state along the table of transitions, and one that is
    -- quarantines the resource; either forgets an allocation only to roll back one that was never
    -- dispatched, from allocated to uploaded with no session known.
    pub merge_state :
        merge_native_resource a b discovery ≡ ok r
        → (((discovery ≡ true) × (r.state ≡ NativeState.quarantined))
            ⊎ ((discovery ≡ false) × (transition_ok a.state r.state ≡ true)))
          × ((a.session_allocation_attempted ≡ false)
              ⊎ ((r.session_allocation_attempted ≡ true)
                  ⊎ ((a.state ≡ NativeState.allocated)
                      × (r.state ≡ NativeState.uploaded)
                      × (coalesce a.session_id b.session_id ≡ none))))
    unfolding combined transition_ok
    merge_state e =
        let p = merge-Passed e in
        (
          moved (admitted_cases discovery (combined a b discovery) r p.taken),
          p.is_checked.allocation,
        )
      where
        moved :
            (let c = combined a b discovery in
              ((r ≡ c)
                × ((discovery ≡ true)
                    ⊎ ((discovery ≡ false) × (transition_ok a.state r.state ≡ true))))
              ⊎ ((r ≡ record c { state = NativeState.quarantined })
                  × (discovery ≡ false)
                  × (a.state ≡ NativeState.quarantined)))
            → ((discovery ≡ true) × (r.state ≡ NativeState.quarantined))
              ⊎ ((discovery ≡ false) × (transition_ok a.state r.state ≡ true))
        moved (inl (as_is, inl found)) = inl (found, rw (as_is, found) refl)
        moved (inl (as_is, inr (told, allowed))) = inr (told, allowed)
        moved (inr (late, told, was)) = inr (told, rw (late, was) refl)
