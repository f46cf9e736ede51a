-- ===== src/Plugin/Auth/Verifying.antt =====
-- When `auth create` writes a secret, and with which credentials.
use sources_for_knative.Base.{
  String, some, Bool, true, false, not, ◌&&◌, ◌≡◌, ◌≢◌, ◌⊎◌, inl, inr, refl, ◌==◌, string_eq,
  test_eq, ne_of_test, if◌then◌else◌, Bool-cases,
}
use sources_for_knative.Kube.{Url}
use sources_for_knative.Plugin.{
  no_namespace, password_unread, bad_address, not_verified, Outcome, printed, failed,
  get_explicit_or_default_namespace,
}
use sources_for_knative.Plugin.Outcomes.{
  guard_passed, executed_printed, with_value_printed, reported_printed, IsSafe, failed-IsSafe,
  executed-IsSafe, with_value-IsSafe, reported-IsSafe,
}
use sources_for_knative.Plugin.Auth.{
  AuthTools, AuthOptions, check_auth, new_secret, read_password, verified, run_create_auth,
  create_auth,
}

module _ {S : Type 0} (tools : AuthTools S) (o : AuthOptions) where
  -- The vCenter at the URL, if one is given, lets the user in with the password.
  abbrev pub IsVerified : String → Type 0
  IsVerified password =
      (o.verify_url ≡ "")
      ⊎ ((url : Url) × (tools.parse_soap_url o.verify_url ≡ some url)
          × (tools.login url o.username password o.insecure ≡ true))

  login_printed :
      (answer : Bool) (s t : S) (next : Outcome S) (out : String)
      → (if answer then next else failed not_verified s) ≡ printed out t
      → (answer ≡ true) × (next ≡ printed out t)
  login_printed true s t next out h = (refl, h)
  login_printed false s t next out h = absurd cc

  verified_printed :
      (password : String) (s t : S) (next : Outcome S) (out : String)
      → verified tools o password s next ≡ printed out t
      → IsVerified password × (next ≡ printed out t)
  unfolding verified
  verified_printed password s t next out h = elim (Bool-cases (o.verify_url == "")) [
    | inl p ↦ (inl (test_eq o.verify_url "" p), (rw p at h))
    | inr p ↦
        let (url, q, h1) =
          with_value_printed (tools.parse_soap_url o.verify_url) bad_address s _ out t
            (rw p at h) in
        let (r, h2) =
          login_printed (tools.login url o.username password o.insecure) s t next out h1 in
        (inr (url, q, r), h2)
  ]

  verified-IsSafe :
      (password : String) (s : S) (next : Outcome S)
      → IsSafe s next
      → IsSafe s (verified tools o password s next)
  unfolding verified
  verified-IsSafe password s next safe = elim (Bool-cases (o.verify_url == "")) [
    | inl p ↦ rw p safe
    | inr p ↦ rw p (
        with_value-IsSafe (tools.parse_soap_url o.verify_url) bad_address s _ (λ url.
          elim (Bool-cases (tools.login url o.username password o.insecure)) [
            | inl q ↦ rw q safe
            | inr q ↦ rw q (failed-IsSafe s not_verified)
          ]))
  ]

  -- An `auth create` that reports success was given a user and a name, and has written one secret with
  -- the user and the password that was read, after the vCenter let that user in if a URL was given.
  pub create_auth_writes :
      (s t : S) (out : String)
      → create_auth tools o s ≡ printed out t
      → (o.username ≢ "")
        × (o.generic.name ≢ "")
        × ((ns : String) × (password : String) × (get_explicit_or_default_namespace tools.configured
                o.generic.namespace_name
              ≡ some ns)
            × (read_password tools o ≡ some password)
            × IsVerified password
            × (tools.secrets.create ns (new_secret ns password o) s ≡ some t))
  unfolding create_auth run_create_auth check_auth
  create_auth_writes s t out h =
      let (check, run) = executed_printed (check_auth o) _ s out t h in
      let (user, g1) = guard_passed (o.username == "") _ _ check in
      let (given, g2) = guard_passed (o.password == "" && not o.password_std_in) _ _ g1 in
      let (once, g3) = guard_passed (not (o.password == "") && o.password_std_in) _ _ g2 in
      let (named, g4) = guard_passed (o.generic.name == "") _ _ g3 in
      let (ns, p, h1) = with_value_printed _ _ s _ out t run in
      let (password, q, h2) = with_value_printed _ _ s _ out t h1 in
      let (verified, h3) = verified_printed password s t _ out h2 in
      (
        ne_of_test o.username "" user,
        ne_of_test o.generic.name "" named,
        (ns, password, p, q, verified, reported_printed _ s _ out t h3),
      )

  -- An `auth create` that fails has written nothing.
  create_auth-IsSafe : (s : S) → IsSafe s (create_auth tools o s)
  unfolding create_auth run_create_auth
  create_auth-IsSafe s = executed-IsSafe (check_auth o) (run_create_auth tools o s) s (
      with_value-IsSafe
        (get_explicit_or_default_namespace tools.configured o.generic.namespace_name) no_namespace s
        _
        (λ ns. with_value-IsSafe (read_password tools o) password_unread s _ (λ password.
          verified-IsSafe password s _ (
            reported-IsSafe "Created vSphere credentials" s
              (tools.secrets.create ns (new_secret ns password o) s)))))
