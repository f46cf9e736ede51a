-- ===== src/Plugin/Bindings/Accepting.antt =====
-- What the webhook makes of a binding that `binding create` sends.
use sources_for_knative.Base.{
  String, none, some, ◌≡◌, ◌≢◌, ◌↔◌, inl, inr, refl, ◌==◌, string_eq, test_eq, ne_of_test,
  Bool-cases,
}
use sources_for_knative.Kube.{Url}
use sources_for_knative.Sources.{Knative, IsCombining}
use sources_for_knative.Sources.Bindings.{
  Subject, validate_auth_iff, validate_binding, validate_own_binding_iff,
}
use sources_for_knative.Plugin.Outcomes.{guard_passed}
use sources_for_knative.Plugin.Bindings.{BindingOptions, check_binding, new_binding}

-- The `Validate` of a tracker.Reference refuses a subject with both a selector and a name.
pub record IsTracking (k : Knative) (validate_subject : Subject → k.Errors) : Type 0 where
  pub one_of :
      (s : Subject) (selector : String)
      → s.selector ≡ some selector
      → s.name ≢ ""
      → validate_subject s ≢ k.no_error

named_secret : (o : BindingOptions) → check_binding o ≡ none → o.secret_ref ≢ ""
unfolding check_binding
named_secret o h =
    let (name, h1) = guard_passed (o.generic.name == "") _ _ h in
    let (address, h2) = guard_passed (o.vc_address == "") _ _ h1 in
    let (secret, h3) = guard_passed (o.secret_ref == "") _ _ h2 in ne_of_test o.secret_ref "" secret

-- The webhook accepts a binding that passed the checks of `binding create` exactly if its subject has
-- no name and is accepted, and the address has a host: a binding that was made with a name for its
-- subject is always refused, since it also has a selector.
pub new_binding_accepted_iff :
    (k : Knative)
    → IsCombining k
    → (validate_subject : Subject → k.Errors) → IsTracking k validate_subject
    → (ns : String) (address : Url) (selector : String) (o : BindingOptions)
    → check_binding o ≡ none
    → (validate_binding k validate_subject (new_binding ns address selector o) ≡ k.no_error) ↔ (
        (o.subject_name ≡ "")
        × (validate_subject (new_binding ns address selector o).subject ≡ k.no_error)
        × (address.host ≢ ""))
unfolding new_binding
new_binding_accepted_iff k combining validate_subject tracking ns address selector o passed =
    let b = new_binding ns address selector o in
    let own = validate_own_binding_iff k combining validate_subject b refl in
    let auth = validate_auth_iff k combining b.auth in
    (
      λ h.
          let parts = own.0 h in
          elim (Bool-cases (o.subject_name == "")) [
            | inl p ↦ (test_eq o.subject_name "" p, parts.0, (auth.0 parts.1).0)
            | inr p ↦
                absurd
                  (tracking.one_of b.subject selector refl (ne_of_test o.subject_name "" p) parts.0)
          ],
      λ h. own.1 (h.1, auth.1 (h.2, named_secret o passed)),
    )
