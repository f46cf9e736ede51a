-- ===== src/Plugin/Listing/Rows.antt =====
-- The rows that the `list` commands print.
use sources_for_knative.Base.{
  ℕ, zero, suc, String, List, [], ◌∷◌, map, Bool, true, false, ◌≡◌, refl, length,
}
use sources_for_knative.Sources.VsphereSource.{VsphereSource}
use sources_for_knative.Sources.Bindings.{VsphereBinding}
use sources_for_knative.Plugin.Listing.{
  Listed, Columns, column_definitions, print_source, print_source_list, print_binding,
  print_binding_list,
}

-- How many of the columns kn shows: all of them with namespaces, else those whose priority is not 0.
count_shown : Bool → List (String × ℕ) → ℕ
count_shown true [] = 0
count_shown true (c ∷ rest) = suc (count_shown true rest)
count_shown false [] = 0
count_shown false ((name, zero) ∷ rest) = count_shown false rest
count_shown false ((name, suc p) ∷ rest) = suc (count_shown false rest)

module _ (columns : Columns) where
  print_source_cells :
      (all_namespaces : Bool) (s : Listed VsphereSource)
      → length (print_source columns all_namespaces s)
        ≡ count_shown all_namespaces column_definitions
  unfolding print_source count_shown column_definitions
  print_source_cells true s = refl
  print_source_cells false s = refl

  print_binding_cells :
      (all_namespaces : Bool) (b : Listed VsphereBinding)
      → length (print_binding columns all_namespaces b)
        ≡ count_shown all_namespaces column_definitions
  unfolding print_binding count_shown column_definitions
  print_binding_cells true b = refl
  print_binding_cells false b = refl

  -- The list of sources has one row for each, and each row has a cell for each column that is shown.
  print_source_list_cells :
      (all_namespaces : Bool) (sources : List (Listed VsphereSource))
      → map length (print_source_list columns all_namespaces sources)
        ≡ map (λ s. count_shown all_namespaces column_definitions) sources
  unfolding print_source_list
  print_source_list_cells all_namespaces [] = refl
  print_source_list_cells all_namespaces (s ∷ rest) =
      cc (print_source_cells all_namespaces s, print_source_list_cells all_namespaces rest)

  -- The list of bindings has one row for each, and each row has a cell for each column that is shown.
  print_binding_list_cells :
      (all_namespaces : Bool) (bindings : List (Listed VsphereBinding))
      → map length (print_binding_list columns all_namespaces bindings)
        ≡ map (λ b. count_shown all_namespaces column_definitions) bindings
  unfolding print_binding_list
  print_binding_list_cells all_namespaces [] = refl
  print_binding_list_cells all_namespaces (b ∷ rest) =
      cc (print_binding_cells all_namespaces b, print_binding_list_cells all_namespaces rest)
