-- ===== src/Reconcile/Horizon/Owned.antt =====
-- `FindOwned` of pkg/reconciler/horizonsource/deployment.go.
use mathlib.Core.List.{Memᴰ}
use sources_for_knative.Base.{
  String, Option, none, some, List, [], ◌∷◌, Bool, true, false, ◌≡◌, ◌==◌, string_eq, if◌then◌else◌,
  Bool-cases, inl, inr, test_eq, ap, sym, subst,
}
use sources_for_knative.Kube.{Deployment, Lookup, found, not_found, get_failed}

-- `metav1.IsControlledBy`, by the UID of the owner.
is_controlled_by : String → Option String → Bool
is_controlled_by uid none = false
is_controlled_by uid (some owner) = owner == uid

-- The loop over the items of the list.
find_controlled : String → List Deployment → Lookup Deployment
unfolding is_controlled_by
find_controlled uid [] = not_found
find_controlled uid (d ∷ ds) =
    let rest = find_controlled uid ds in
    if is_controlled_by uid d.metadata.controller then found d else rest

-- `FindOwned`, on what the listing of the deployments with the labels came to.
find_owned : String → Option (List Deployment) → Lookup Deployment
unfolding find_controlled
find_owned uid none = get_failed
find_owned uid (some items) = find_controlled uid items

controlled_by : (uid : String) (o : Option String) → is_controlled_by uid o ≡ true → o ≡ some uid
unfolding is_controlled_by
controlled_by uid none h = absurd cc
controlled_by uid (some owner) h = ap some (test_eq owner uid h)

find_controlled_found :
    (uid : String) (items : List Deployment) (d : Deployment)
    → find_controlled uid items ≡ found d
    → (d.metadata.controller ≡ some uid) × Memᴰ d items
unfolding find_controlled
find_controlled_found uid [] d h = absurd cc
find_controlled_found uid (x ∷ xs) d h =
    elim (Bool-cases (is_controlled_by uid x.metadata.controller)) [
      | inl p ↦
          let q : ◌≡◌ {A = Lookup Deployment} (found x) (found d) = (rw p at h) in
          let same : x ≡ d = cc in
          (
            subst (λ (y : Deployment). y.metadata.controller ≡ some uid) same
                (controlled_by uid x.metadata.controller p),
            Memᴰ.head (sym same),
          )
      | inr p ↦ let (owned, m) = find_controlled_found uid xs d (rw p at h) in (owned, Memᴰ.tail m)
    ]

-- What is found is one of the listed deployments, and the owner controls it.
find_owned_found :
    (uid : String) (items : List Deployment) (d : Deployment)
    → find_owned uid (some items) ≡ found d
    → (d.metadata.controller ≡ some uid) × Memᴰ d items
unfolding find_owned
find_owned_found uid items d h = find_controlled_found uid items d h
