-- ===== src/Plugin/Flags.antt =====
-- plugins/vsphere/pkg/command/flags/flags.go.
use sources_for_knative.Base.{
  ℕ, suc, ◌+◌, ◌≤◌, String, List, [], ◌∷◌, Bool, true, false, ◌≡◌, ◌↔◌, refl, ◌==◌, string_eq,
  if◌then◌else◌, ltb, arith, inl, inr, Bool-cases,
}

-- `incrementIfNonEmpty`, which returns what it stores.
unfoldable pub increment_if_non_empty : String → ℕ → ℕ
increment_if_non_empty value non_empty = if value == "" then non_empty else non_empty + 1

-- The loop over the other values.
unfoldable pub rest_exclusive : List String → ℕ → Bool
unfolding increment_if_non_empty
rest_exclusive [] non_empty = true
rest_exclusive (value ∷ rest) non_empty =
    let more = increment_if_non_empty value non_empty in
    let later = rest_exclusive rest more in if ltb 1 more then false else later

-- `MutuallyExclusiveStringFlags`
unfoldable pub mutually_exclusive_string_flags : String → String → List String → Bool
unfolding rest_exclusive
mutually_exclusive_string_flags value1 value2 rest =
    let non_empty = increment_if_non_empty value2 (increment_if_non_empty value1 0) in
    if ltb 1 non_empty then false else rest_exclusive rest non_empty

-- How many of the values are not empty.
count_non_empty : List String → ℕ
count_non_empty [] = 0
count_non_empty (value ∷ rest) =
    let others = count_non_empty rest in if value == "" then others else suc others

rest_exclusive_iff :
    (rest : List String) (n : ℕ)
    → n ≤ 1
    → (rest_exclusive rest n ≡ true) ↔ (n + count_non_empty rest ≤ 1)
unfolding rest_exclusive count_non_empty increment_if_non_empty
rest_exclusive_iff [] n h = (λ e. ground arith, λ e. refl)
rest_exclusive_iff (value ∷ rest) n h = elim (Bool-cases (value == "")) [
  | inl p ↦ rw p (ground (arith, rest_exclusive_iff rest n h))
  | inr p ↦ rw p (ground (arith, rest_exclusive_iff rest (n + 1)))
]

-- Flags are mutually exclusive exactly if at most one of them is not empty.
mutually_exclusive_string_flags_iff :
    (value1 value2 : String) (rest : List String)
    → (mutually_exclusive_string_flags value1 value2 rest ≡ true)
      ↔ (count_non_empty (value1 ∷ value2 ∷ rest) ≤ 1)
unfolding mutually_exclusive_string_flags count_non_empty increment_if_non_empty
mutually_exclusive_string_flags_iff value1 value2 rest = elim (Bool-cases (value1 == "")) [
  | inl p ↦ elim (Bool-cases (value2 == "")) [
    | inl q ↦ rw (p, q) (ground (arith, rest_exclusive_iff rest 0))
    | inr q ↦ rw (p, q) (ground (arith, rest_exclusive_iff rest 1))
  ]
  | inr p ↦ elim (Bool-cases (value2 == "")) [
    | inl q ↦ rw (p, q) (ground (arith, rest_exclusive_iff rest 1))
    | inr q ↦ rw (p, q) (λ h. absurd cc, λ h. ground arith)
  ]
]
