-- ===== src/Plugin/Outcomes.antt =====
-- What the outcome of a command says of its steps.
use sources_for_knative.Base.{
  String, Option, none, some, Bool, true, false, ◌≡◌, refl, if◌then◌else◌,
}
use sources_for_knative.Plugin.{
  Failure, call_failed, Outcome, printed, failed, executed, with_value, reported,
}

-- A check that lets a command go on was false.
pub guard_passed :
    (b : Bool) (e : Failure) (rest : Option Failure)
    → (if b then some e else rest) ≡ none
    → (b ≡ false) × (rest ≡ none)
guard_passed true e rest h = absurd cc
guard_passed false e rest h = (refl, h)

module _ {S : Type 0} where
  pub executed_printed :
      (check : Option Failure) (run : Outcome S) (s : S) (out : String) (t : S)
      → executed check run s ≡ printed out t
      → (check ≡ none) × (run ≡ printed out t)
  executed_printed none run s out t h = (refl, h)
  executed_printed (some e) run s out t h = absurd cc

  pub with_value_printed :
      {A : Type 0} (o : Option A) (e : Failure) (s : S) (next : A → Outcome S) (out : String)
      (t : S)
      → with_value o e s next ≡ printed out t
      → (a : A) × (o ≡ some a) × (next a ≡ printed out t)
  with_value_printed none e s next out t h = absurd cc
  with_value_printed (some a) e s next out t h = (a, refl, h)

  pub reported_printed :
      (message : String) (s : S) (o : Option S) (out : String) (t : S)
      → reported message s o ≡ printed out t
      → o ≡ some t
  reported_printed message s none out t h = absurd cc
  reported_printed message s (some u) out t h = cc

  -- If the outcome is a failure, the store is the given one.
  pub record IsSafe (s : S) (r : Outcome S) : Type 0 where
    pub unchanged : (e : Failure) (t : S) → r ≡ failed e t → t ≡ s

  pub failed-IsSafe : (s : S) (e : Failure) → IsSafe s (failed e s)
  failed-IsSafe s e = record { unchanged = λ f t h. cc }

  pub executed-IsSafe :
      (check : Option Failure) (run : Outcome S) (s : S)
      → IsSafe s run
      → IsSafe s (executed check run s)
  executed-IsSafe none run s safe = safe
  executed-IsSafe (some e) run s safe = failed-IsSafe s e

  pub with_value-IsSafe :
      {A : Type 0} (o : Option A) (e : Failure) (s : S) (next : A → Outcome S)
      → ((a : A) → IsSafe s (next a))
      → IsSafe s (with_value o e s next)
  with_value-IsSafe none e s next safe = failed-IsSafe s e
  with_value-IsSafe (some a) e s next safe = safe a

  pub reported-IsSafe : (message : String) (s : S) (o : Option S) → IsSafe s (reported message s o)
  reported-IsSafe message s none = failed-IsSafe s call_failed
  reported-IsSafe message s (some t) = record { unchanged = λ f u h. absurd cc }
