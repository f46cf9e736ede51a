-- ===== src/Sources/Bindings.antt =====
-- vspherebinding_defaults.go and vspherebinding_validation.go, with the check of the address and
-- the secret that every resource shares.
use sources_for_knative.Base.{
  String, Option, not, ◌&&◌, ◌≡◌, ◌≢◌, ◌↔◌, ◌⊎◌, refl, ◌==◌, string_eq, test_eq, ne_of_test,
  if◌then◌else◌, Bool-cases, true, subst, test_refl, if_both, inl, inr, codes,
}
use sources_for_knative.Kube.{Condition, ObjectMeta}
use sources_for_knative.Binding.{VAuthSpec}
use sources_for_knative.Sources.{Knative, IsCombining}

-- The subject of a binding, a tracker.Reference; a label selector is kept as its text.
pub record Subject : Type 0 where
  pub api_version : String
  pub kind : String
  pub namespace_name : String
  pub name : String
  pub selector : Option String

-- `ready` is the Ready condition of the status, if there is one.
pub record VsphereBinding : Type 0 where
  pub metadata : ObjectMeta
  pub subject : Subject
  pub auth : VAuthSpec
  pub ready : Option Condition

-- `SetDefaults`
set_binding_defaults : VsphereBinding → VsphereBinding
set_binding_defaults b =
    if b.subject.namespace_name == ""
    then record b { subject = record b.subject { namespace_name = b.metadata.namespace_name } }
    else b

module _ (k : Knative) where
  -- `if text == "" { err = err.Also(apis.ErrMissingField(field)) }`
  pub require_text : String → String → k.Errors → k.Errors
  require_text text field e = if text == "" then k.also e (k.missing_field field) else e

  -- `VAuthSpec.Validate`, which `HorizonAuthSpec.Validate` repeats.
  pub validate_auth : VAuthSpec → k.Errors
  unfolding require_text
  validate_auth auth =
      require_text auth.secret_name "secretRef.name"
        (require_text auth.address.host "address.host" k.no_error)

  -- `VSphereBinding.Validate`; `validate_subject` is the `Validate` of knative's tracker.Reference.
  pub validate_binding : (Subject → k.Errors) → VsphereBinding → k.Errors
  validate_binding validate_subject b =
      let err =
        k.via_field "spec"
          (k.also (k.via_field "subject" (validate_subject b.subject)) (validate_auth b.auth)) in
      if not (b.subject.namespace_name == "")
        && not (b.metadata.namespace_name == b.subject.namespace_name)
      then k.also err (k.invalid_text (codes b.subject.namespace_name) "spec.subject.namespace")
      else err

  module _ (combining : IsCombining k) where
    pub require_text_iff :
        (text field : String) (e : k.Errors)
        → (require_text text field e ≡ k.no_error) ↔ ((e ≡ k.no_error) × (text ≢ ""))
    unfolding require_text
    require_text_iff text field e = elim (Bool-cases (text == "")) [
      | inl p ↦ rw p (
        λ h.
            absurd
              (combining.missing_ne field ((combining.also_iff e (k.missing_field field)).0 h).1),
        λ h. absurd (h.1 (test_eq text "" p)),
      )
      | inr p ↦ rw p (λ h. (h, ne_of_test text "" p), λ h. h.0)
    ]

    -- The address and the secret are accepted exactly if both are named.
    pub validate_auth_iff :
        (auth : VAuthSpec)
        → (validate_auth auth ≡ k.no_error) ↔ ((auth.address.host ≢ "") × (auth.secret_name ≢ ""))
    unfolding validate_auth
    validate_auth_iff auth =
        let inner = require_text_iff auth.address.host "address.host" k.no_error in
        let outer =
          require_text_iff auth.secret_name "secretRef.name"
            (require_text auth.address.host "address.host" k.no_error) in
        (λ h. ((inner.0 (outer.0 h).0).1, (outer.0 h).1), λ h. outer.1 (inner.1 (refl, h.0), h.1))

    auth_kept :
        (b : VsphereBinding)
        → validate_auth b.auth ≡ k.no_error
        → validate_auth (set_binding_defaults b).auth ≡ k.no_error
    unfolding set_binding_defaults
    auth_kept b h =
        if_both (λ (c : VsphereBinding). validate_auth c.auth ≡ k.no_error)
          (b.subject.namespace_name == "") h h

    -- A binding of a subject in its own namespace passes exactly if the subject and the authentication
    -- do.
    pub validate_own_binding_iff :
        (validate_subject : Subject → k.Errors) (b : VsphereBinding)
        → b.metadata.namespace_name ≡ b.subject.namespace_name
        → (validate_binding validate_subject b ≡ k.no_error)
          ↔ ((validate_subject b.subject ≡ k.no_error) × (validate_auth b.auth ≡ k.no_error))
    unfolding validate_binding
    validate_own_binding_iff validate_subject b same =
        let own : (b.metadata.namespace_name == b.subject.namespace_name) ≡ true =
          subst (λ n. (b.metadata.namespace_name == n) ≡ true) same
            (test_refl b.metadata.namespace_name) in
        let field = combining.via_field_iff "subject" (validate_subject b.subject) in
        let both =
          combining.also_iff (k.via_field "subject" (validate_subject b.subject))
            (validate_auth b.auth) in
        let whole =
          combining.via_field_iff "spec"
            (k.also (k.via_field "subject" (validate_subject b.subject)) (validate_auth b.auth)) in
        elim (Bool-cases (b.subject.namespace_name == "")) [
          | inl s ↦ rw s (
            λ h. (field.0 (both.0 (whole.0 h)).0, (both.0 (whole.0 h)).1),
            λ h. whole.1 (both.1 (field.1 h.0, h.1)),
          )
          | inr s ↦
              rw (s, own)
                (
                  λ h. (field.0 (both.0 (whole.0 h)).0, (both.0 (whole.0 h)).1),
                  λ h. whole.1 (both.1 (field.1 h.0, h.1)),
                )
        ]

    -- A binding whose subject and authentication are accepted passes exactly if its subject's
    -- namespace is empty or its own: a binding cannot reach into another namespace.
    validate_binding_iff :
        (validate_subject : Subject → k.Errors) (b : VsphereBinding)
        → validate_subject b.subject ≡ k.no_error
        → validate_auth b.auth ≡ k.no_error
        → (validate_binding validate_subject b ≡ k.no_error) ↔ (
            (b.subject.namespace_name ≡ "")
            ⊎ (b.metadata.namespace_name ≡ b.subject.namespace_name))
    unfolding validate_binding
    validate_binding_iff validate_subject b hs ha =
        elim (Bool-cases (b.subject.namespace_name == "")) [
          | inl s ↦ rw s (λ h. inl (test_eq b.subject.namespace_name "" s), λ h. base)
          | inr s ↦ elim (Bool-cases (b.metadata.namespace_name == b.subject.namespace_name)) [
            | inl t ↦
                rw (s, t)
                  (
                    λ h. inr (test_eq b.metadata.namespace_name b.subject.namespace_name t),
                    λ h. base,
                  )
            | inr t ↦
                rw (s, t)
                  (
                    λ h. absurd (
                        combining.invalid_text_ne (codes b.subject.namespace_name) field
                          ((combining.also_iff err
                              (k.invalid_text (codes b.subject.namespace_name) field)).0
                            h).1),
                    λ h. elim h [
                      | inl p ↦ absurd (ne_of_test b.subject.namespace_name "" s p)
                      | inr p ↦
                          absurd (ne_of_test b.metadata.namespace_name b.subject.namespace_name t p)
                    ],
                  )
          ]
        ]
      where
        field : String
        field = "spec.subject.namespace"

        inner : k.Errors
        inner = k.via_field "subject" (validate_subject b.subject)

        err : k.Errors
        err = k.via_field "spec" (k.also inner (validate_auth b.auth))

        base : err ≡ k.no_error
        base = (combining.via_field_iff "spec" (k.also inner (validate_auth b.auth))).1 (
            (combining.also_iff inner (validate_auth b.auth)).1
              ((combining.via_field_iff "subject" (validate_subject b.subject)).1 hs, ha))

    -- The defaults put a binding that names no namespace for its subject into its own namespace, so
    -- it then passes, if its subject and its authentication are accepted.
    validate_binding-set_binding_defaults :
        (validate_subject : Subject → k.Errors) (b : VsphereBinding)
        → b.subject.namespace_name ≡ ""
        → validate_subject (set_binding_defaults b).subject ≡ k.no_error
        → validate_auth b.auth ≡ k.no_error
        → validate_binding validate_subject (set_binding_defaults b) ≡ k.no_error
    validate_binding-set_binding_defaults validate_subject b e hs ha =
        (validate_binding_iff validate_subject (set_binding_defaults b) hs (auth_kept b ha)).1
          (inr (unfold set_binding_defaults in rw e))
