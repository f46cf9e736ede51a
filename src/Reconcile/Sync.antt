-- ===== src/Reconcile/Sync.antt =====
-- `podSpecSync`, `syncContainers` and `getContainer` of pkg/reconciler/horizonsource/deployment.go.
-- `syncContainers` receives the pod spec by value: it writes to the caller's containers through the
-- shared array of the slice, but what it appends stays its own, and once an append has moved the
-- slice to a new array its writes are no longer seen by the caller.
pub mod Missing
pub mod Single
mod Tests
use sources_for_knative.Base.{
  ℕ, zero, suc, String, Option, none, some, List, [], ◌∷◌, ◌++◌, Bool, true, false, not, ltb, set,
  Eq, ◌==◌, string_eq, nat_eq, if◌then◌else◌, Text, codes,
}
use sources_for_knative.Kube.{EnvVar, Container, PodSpec}

-- The order of Go strings: lexicographic, by bytes or by code points alike.
text_lt : Text → Text → Bool
text_lt [] [] = false
text_lt [] (d ∷ t) = true
text_lt (c ∷ s) [] = false
text_lt (c ∷ s) (d ∷ t) = let rest = text_lt s t in if c == d then rest else ltb c d

-- `sort.Slice` by the variables' names.
insert_env : EnvVar → List EnvVar → List EnvVar
insert_env v [] = v ∷ []
insert_env v (w ∷ env) =
    let rest = insert_env v env in
    if text_lt (codes w.name) (codes v.name) then w ∷ rest else v ∷ (w ∷ env)

-- `sort.Slice` by name; where names are equal, it leaves open their order, which is kept here.
pub sort_env : List EnvVar → List EnvVar
unfolding insert_env text_lt
sort_env [] = []
sort_env (v ∷ env) = insert_env v (sort_env env)

-- The first container with the name, and its index.
get_container_from : ℕ → String → List Container → Option (ℕ × Container)
get_container_from i name [] = none
get_container_from i name (c ∷ cs) =
    let rest = get_container_from (suc i) name cs in if c.name == name then some (i, c) else rest

pub get_container : String → List Container → Option (ℕ × Container)
unfolding get_container_from
get_container name cs = get_container_from 0 name cs

-- The slice `now.Containers` in the callee, with what the caller sees of it.
pub record Slice : Type 0 where
  pub callee : List Container
  pub caller : List Container
  pub spare : ℕ
  pub shared : Bool

-- `append` of one element: it moves to a new array if no capacity is left.
push_with : ℕ → Container → Slice → Slice
push_with zero c s = record s { callee = s.callee ++ c ∷ []; shared = false }
push_with (suc n) c s = record s { callee = s.callee ++ c ∷ []; spare = n }

push : Container → Slice → Slice
unfolding push_with
push c s = push_with s.spare c s

-- A write through the array, at an index of the callee's slice.
write : ℕ → Container → Slice → Slice
write n c s = record s {
  callee = set s.callee n c;
  caller = if s.shared then set s.caller n c else s.caller;
}

module _ (same_env : Eq (List EnvVar)) where
  -- The two writes to a container that is there, as one: its image and its variables.
  updated : Container → Container → Container
  updated ec nc = record nc {
    image = if not (nc.image == ec.image) then ec.image else nc.image;
    env = if not (same_env.test (sort_env ec.env) (sort_env nc.env)) then ec.env else nc.env;
  }

  sync_found : Container → Option (ℕ × Container) → Slice → Slice
  sync_found ec none s = push ec s
  sync_found ec (some (n, nc)) s = write n (updated ec nc) s

  sync_containers : List Container → Slice → Slice
  unfolding sync_found push write updated get_container
  sync_containers [] s = s
  sync_containers (ec ∷ expected) s =
      sync_containers expected (sync_found ec (get_container ec.name s.callee) s)

  -- `spare` is the capacity that the decoded slice of the existing pod spec has left.
  pub now_after : ℕ → PodSpec → PodSpec → PodSpec
  unfolding sync_containers
  now_after spare expected now =
      let start : Slice = record {
        callee = now.containers;
        caller = now.containers;
        spare = spare;
        shared = true;
      } in
      record now { containers = (sync_containers expected.containers start).caller }

  module _ (same_pod : Eq PodSpec) where
    -- Whether an update is needed.
    pub pod_spec_sync : ℕ → PodSpec → PodSpec → Bool
    pod_spec_sync spare expected now = not (same_pod.test now (now_after spare expected now))
