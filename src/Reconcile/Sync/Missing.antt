-- ===== src/Reconcile/Sync/Missing.antt =====
-- A container that the deployment lacks is not noticed: the append of `syncContainers` does not
-- reach its caller.
use sources_for_knative.Base.{
  ℕ, zero, suc, ◌+◌, ◌≤◌, ◌≡◌, refl, sym, ap, ◌∙◌, String, Option, none, some, List, [], ◌∷◌, ◌++◌,
  true, false, length, set, All, Eq, ◌==◌, string_eq, test_refl, Bool-cases, inl, inr, arith,
}
use mathlib.Core.List.{append-nil, append_assoc}
use sources_for_knative.Kube.{EnvVar, Container, PodSpec}
use sources_for_knative.Reconcile.Sync.{
  get_container_from, get_container, Slice, push_with, push, write, updated, sync_found,
  sync_containers, now_after, pod_spec_sync,
}

-- No container has the name.
abbrev pub Lacks : List Container → String → Type 0
Lacks cs name = All (λ c. (c.name == name) ≡ false) cs

-- A container that is found behind others is not written over them.
abbrev Behind : ℕ → Option (ℕ × Container) → Type 0
Behind k none = Unit
Behind k (some (n, c)) = k ≤ n

get_container_from-Behind :
    (i : ℕ) (name : String) (cs : List Container) → Behind i (get_container_from i name cs)
unfolding get_container_from
get_container_from-Behind i name [] = tt
get_container_from-Behind i name (c ∷ cs) = elim (Bool-cases (c.name == name)) [
  | inl e ↦ rw e (omega arith)
  | inr e ↦
      rw e (weaken (get_container_from (suc i) name cs) (get_container_from-Behind (suc i) name cs))
]
  where
    weaken : (o : Option (ℕ × Container)) → Behind (suc i) o → Behind i o
    weaken none h = tt
    weaken (some (n, d)) h = omega arith

get_container_from_skip :
    (i : ℕ) (name : String) (xs ys : List Container)
    → Lacks xs name
    → get_container_from i name (xs ++ ys) ≡ get_container_from (length xs + i) name ys
unfolding get_container_from
get_container_from_skip i name [] ys h = ap (λ k. get_container_from k name ys) (omega arith)
get_container_from_skip i name (x ∷ xs) ys h = rw (h.0) (
    get_container_from_skip (suc i) name xs ys h.1
    ∙ ap (λ k. get_container_from k name ys) (omega arith))

get_container-Behind :
    (name : String) (xs ys : List Container)
    → Lacks xs name
    → Behind (length xs) (get_container name (xs ++ ys))
unfolding get_container
get_container-Behind name xs ys h =
    let e : length xs + 0 ≡ length xs = omega arith in
    rw (get_container_from_skip 0 name xs ys h, e) (get_container_from-Behind (length xs) name ys)

set_beyond : (cs : List Container) (n : ℕ) (c : Container) → length cs ≤ n → set cs n c ≡ cs
set_beyond [] n c h = refl
set_beyond (d ∷ cs) zero c h = absurd (omega arith)
set_beyond (d ∷ cs) (suc n) c h = ap (λ t. d ∷ t) (set_beyond cs n c (omega arith))

set_behind :
    (xs ys : List Container) (n : ℕ) (c : Container)
    → length xs ≤ n
    → (zs : List Container) × (set (xs ++ ys) n c ≡ xs ++ zs)
set_behind [] ys n c h = (set ys n c, refl)
set_behind (x ∷ xs) ys zero c h = absurd (omega arith)
set_behind (x ∷ xs) ys (suc n) c h =
    let (zs, p) = set_behind xs ys n c (omega arith) in (zs, ap (λ t. x ∷ t) p)

-- The caller still sees what it passed, and the callee has it in front.
record IsApart (original : List Container) (s : Slice) : Type 0 where
  caller_same : s.caller ≡ original
  extra : List Container
  callee_more : s.callee ≡ original ++ extra

push_with-IsApart :
    (original : List Container) (spare : ℕ) (c : Container) (s : Slice)
    → IsApart original s
    → IsApart original (push_with spare c s)
unfolding push_with
push_with-IsApart original zero c s a = record {
  caller_same = a.caller_same;
  extra = a.extra ++ c ∷ [];
  callee_more = rw (a.callee_more) (append_assoc original a.extra (c ∷ []));
}
push_with-IsApart original (suc n) c s a = record {
  caller_same = a.caller_same;
  extra = a.extra ++ c ∷ [];
  callee_more = rw (a.callee_more) (append_assoc original a.extra (c ∷ []));
}

write-IsApart :
    (original : List Container) (n : ℕ) (c : Container) (s : Slice)
    → length original ≤ n
    → IsApart original s
    → IsApart original (write n c s)
unfolding write
write-IsApart original n c s h a =
    let (zs, p) = set_behind original a.extra n c h in
    record {
      caller_same = elim (Bool-cases s.shared) [
        | inl e ↦ rw e (rw (a.caller_same) (set_beyond original n c h))
        | inr e ↦ rw e (a.caller_same)
      ];
      extra = zs;
      callee_more = rw (a.callee_more) p;
    }

module _ (same_env : Eq (List EnvVar)) where
  sync_found-IsApart :
      (original : List Container) (ec : Container) (o : Option (ℕ × Container)) (s : Slice)
      → Behind (length original) o
      → IsApart original s
      → IsApart original (sync_found same_env ec o s)
  unfolding sync_found push
  sync_found-IsApart original ec none s h a = push_with-IsApart original s.spare ec s a
  sync_found-IsApart original ec (some (n, nc)) s h a =
      write-IsApart original n (updated same_env ec nc) s h a

  sync_containers-IsApart :
      (original expected : List Container) (s : Slice)
      → All (λ ec. Lacks original ec.name) expected
      → IsApart original s
      → IsApart original (sync_containers same_env expected s)
  unfolding sync_containers
  sync_containers-IsApart original [] s h a = a
  sync_containers-IsApart original (ec ∷ expected) s h a =
      sync_containers-IsApart original expected
        (sync_found same_env ec (get_container ec.name s.callee) s) h.1
        (sync_found-IsApart original ec (get_container ec.name s.callee) s
          (rw (a.callee_more) (get_container-Behind ec.name original a.extra h.0)) a)

  module _ (same_pod : Eq PodSpec) where
    -- Where the existing pod spec has none of the expected containers, `podSpecSync` reports that
    -- no update is needed, whatever capacity its slice has left.
    pub pod_spec_sync_misses :
        (spare : ℕ) (expected now : PodSpec)
        → All (λ ec. Lacks now.containers ec.name) expected.containers
        → pod_spec_sync same_env same_pod spare expected now ≡ false
    unfolding pod_spec_sync now_after
    pod_spec_sync_misses spare expected now h =
        let start : Slice = record {
          callee = now.containers;
          caller = now.containers;
          spare = spare;
          shared = true;
        } in
        let a =
          sync_containers-IsApart now.containers expected.containers start h
            (record { caller_same = refl; extra = []; callee_more = sym (append-nil _) }) in
        rw (a.caller_same, test_refl ⦃e = same_pod⦄ now)
