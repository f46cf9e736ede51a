-- ===== src/Horizon/Events/Remove.antt =====
-- What `removeEvent` does: it removes one event, and goes wrong where two events carry the ID.
use mathlib.Core.List.{append_assoc}
use sources_for_knative.Base.{
  ℕ, suc, ◌+◌, ◌-◌, ◌≤◌, ℤ, ◌≡◌, refl, ap, sym, ◌∙◌, Bool, true, false, not, some, List, [], ◌∷◌,
  ◌++◌, length, length-append, set, take, drop, keep, ◌==◌, int_eq, leb, if◌then◌else◌, arith, inl,
  inr, Bool-cases,
}
use sources_for_knative.Horizon.Events.{
  AuditEventSummary, zero_event, returned, panicked, ◌>>=◌, delete_index, remove_loop, remove_event,
}

module _ {ℓ} {A : Type ℓ} where
  take_prefix : (xs ys : List A) → take (length xs) (xs ++ ys) ≡ xs
  take_prefix [] ys = refl
  take_prefix (x ∷ xs) ys = ap (λ t. x ∷ t) (take_prefix xs ys)

  drop_past : (xs ys : List A) (x : A) → drop (suc (length xs)) (xs ++ x ∷ ys) ≡ ys
  drop_past [] ys x = refl
  drop_past (y ∷ xs) ys x = drop_past xs ys x

  drop_to_last : (xs : List A) (x : A) → (l : A) × (drop (length xs) (x ∷ xs) ≡ l ∷ [])
  drop_to_last [] x = (x, refl)
  drop_to_last (y ∷ xs) x = drop_to_last xs y

  set_last : (xs : List A) (x z : A) → set (xs ++ x ∷ []) (length xs) z ≡ xs ++ z ∷ []
  set_last [] x z = refl
  set_last (y ∷ xs) x z = ap (λ t. y ∷ t) (set_last xs x z)

  length_snoc_pred : (xs : List A) (x : A) → length (xs ++ x ∷ []) - 1 ≡ length xs
  length_snoc_pred xs x = omega (arith, length-append xs (x ∷ []))

  -- Erasing and cutting off the last element.
  cut_last :
      (xs : List A) (x z : A)
      → take (length (xs ++ x ∷ []) - 1) (set (xs ++ x ∷ []) (length (xs ++ x ∷ []) - 1) z) ≡ xs
  cut_last xs x z = rw (length_snoc_pred xs x) (rw (set_last xs x z) (take_prefix xs (z ∷ [])))

  length_middle_pred : (xs ys : List A) (x : A) → length (xs ++ x ∷ ys) - 1 ≡ length xs + length ys
  length_middle_pred xs ys x = omega (arith, length-append xs (x ∷ ys))

  drop_last_of_middle :
      (xs ys : List A) (x : A)
      → (l : A) × (drop (length (xs ++ x ∷ ys) - 1) (xs ++ x ∷ ys) ≡ l ∷ [])
  drop_last_of_middle [] ys x =
      let e : suc (length ys) - 1 ≡ length ys = omega arith in
      let (l, p) = drop_to_last ys x in (l, rw e p)
  drop_last_of_middle (y ∷ xs) ys x =
      let e : suc (length (xs ++ x ∷ ys)) - 1 ≡ length (xs ++ x ∷ ys) = omega arith in
      let (l, p) = drop_to_last (xs ++ x ∷ ys) y in (l, rw e p)

length_snoc {ℓ} : {A : Type ℓ} (xs : List A) (x : A) → length (xs ++ x ∷ []) ≡ suc (length xs)
length_snoc xs x = omega (arith, length-append xs (x ∷ []))

delete_index_middle :
    (xs ys : List AuditEventSummary) (x : AuditEventSummary)
    → delete_index (length xs) (xs ++ x ∷ ys) ≡ returned (xs ++ ys)
unfolding delete_index
delete_index_middle xs ys x =
    let fits : leb (suc (length xs)) (length (xs ++ x ∷ ys)) ≡ true =
      ground (arith, length-append xs (x ∷ ys)) in
    let (l, p) = drop_last_of_middle xs ys x in
    rw (fits) (
      rw (p, take_prefix xs (x ∷ ys), drop_past xs ys x, ← append_assoc xs ys (l ∷ []))
        (ap returned (cut_last (xs ++ ys) l zero_event)))

abbrev pub has_id : ℤ → AuditEventSummary → Bool
has_id id x = x.id == id

-- How many events carry the ID.
abbrev pub matches : ℤ → List AuditEventSummary → ℕ
matches id [] = 0
matches id (x ∷ xs) = let rest = matches id xs in if has_id id x then suc rest else rest

abbrev pub without : ℤ → List AuditEventSummary → List AuditEventSummary
without id = keep (λ x. not (has_id id x))

-- Over events without the ID the loop only advances.
remove_loop_skip :
    (id : ℤ) (i : ℕ) (pre xs d : List AuditEventSummary)
    → matches id pre ≡ 0
    → remove_loop id i (pre ++ xs) d ≡ remove_loop id (length pre + i) xs d
unfolding remove_loop
remove_loop_skip id i [] xs d h = ap (λ j. remove_loop id j xs d) (omega arith)
remove_loop_skip id i (x ∷ pre) xs d h = elim (Bool-cases (has_id id x)) [
  | inl e ↦ absurd (ground arith)
  | inr e ↦ rw e (
      remove_loop_skip id (suc i) pre xs d (ground arith)
      ∙ ap (λ j. remove_loop id j xs d) (omega arith))
]

without_none : (id : ℤ) (xs : List AuditEventSummary) → matches id xs ≡ 0 → without id xs ≡ xs
without_none id [] h = refl
without_none id (x ∷ xs) h = ground (arith, without_none id xs)

matches-append :
    (id : ℤ) (xs ys : List AuditEventSummary)
    → matches id (xs ++ ys) ≡ matches id xs + matches id ys
matches-append id [] ys = omega arith
matches-append id (x ∷ xs) ys = ground (arith, matches-append id xs ys)

remove_loop_none :
    (id : ℤ) (i : ℕ) (xs d : List AuditEventSummary)
    → matches id xs ≡ 0
    → remove_loop id i xs d ≡ returned d
unfolding remove_loop
remove_loop_none id i [] d h = refl
remove_loop_none id i (x ∷ xs) d h = elim (Bool-cases (has_id id x)) [
  | inl e ↦ absurd (ground arith)
  | inr e ↦ rw e (remove_loop_none id (suc i) xs d (ground arith))
]

-- With what was read before still in front, the loop leaves exactly the other events.
remove_loop_once :
    (id : ℤ) (pre xs : List AuditEventSummary)
    → matches id xs ≤ 1
    → remove_loop id (length pre) xs (pre ++ xs) ≡ returned (pre ++ without id xs)
unfolding remove_loop
remove_loop_once id pre [] h = refl
remove_loop_once id pre (x ∷ xs) h = elim (Bool-cases (has_id id x)) [
  | inl e ↦
      rw (e, delete_index_middle pre xs x)
        (remove_loop_none id (suc (length pre)) xs (pre ++ xs) (ground arith)
          ∙ ap (λ t. returned (pre ++ t)) (sym (without_none id xs (ground arith))))
  | inr e ↦ rw e (
      rw
        (length_snoc pre x, append_assoc pre (x ∷ []) xs, append_assoc pre (x ∷ []) (without id xs))
        at (remove_loop_once id (pre ++ x ∷ []) xs (ground arith)))
]

-- Where at most one event of the list carries the given event's ID, `removeEvent` returns the list
-- of all the other events, in their order, and does not panic.
pub remove_event-eq-without :
    (list : List AuditEventSummary) (event : AuditEventSummary)
    → matches event.id list ≤ 1
    → remove_event list (some event) ≡ returned (without event.id list)
unfolding remove_event
remove_event-eq-without list event h = remove_loop_once event.id [] list h

-- The state of the loop when it meets a second event with the ID.
remove_event_second :
    (pre mid rest : List AuditEventSummary) (a b event : AuditEventSummary)
    → matches event.id pre ≡ 0
    → matches event.id mid ≡ 0
    → has_id event.id a ≡ true
    → has_id event.id b ≡ true
    → remove_event (pre ++ a ∷ (mid ++ b ∷ rest)) (some event) ≡ (
        delete_index (length mid + suc (length pre)) (pre ++ (mid ++ b ∷ rest))
        >>= remove_loop event.id (suc (length mid + suc (length pre))) rest)
unfolding remove_event
remove_event_second pre mid rest a b event hp hm ha hb =
    remove_loop_skip event.id 0 pre (a ∷ (mid ++ b ∷ rest)) (pre ++ a ∷ (mid ++ b ∷ rest)) hp
    ∙ (let n : length pre + 0 ≡ length pre = omega arith in
        rw (n, ha, delete_index_middle pre (mid ++ b ∷ rest) a)
          (remove_loop_skip event.id (suc (length pre)) mid (b ∷ rest) (pre ++ (mid ++ b ∷ rest)) hm
            ∙ rw hb))

module _ (pre mid : List AuditEventSummary) (a b event : AuditEventSummary)
    (unseen_before : matches event.id pre ≡ 0) (unseen_between : matches event.id mid ≡ 0)
    (first : has_id event.id a ≡ true) (second : has_id event.id b ≡ true) where
  -- Where the last event of the list is the second one with the ID, `removeEvent` panics.
  pub remove_event_panics : remove_event (pre ++ a ∷ (mid ++ b ∷ [])) (some event) ≡ panicked
  unfolding delete_index
  remove_event_panics =
      remove_event_second pre mid [] a b event unseen_before unseen_between first second
      ∙ (let e : leb (suc (length mid + suc (length pre))) (length (pre ++ (mid ++ b ∷ [])))
              ≡ false =
            ground (arith, length-append pre (mid ++ b ∷ []), length-append mid (b ∷ [])) in
          rw e)

  -- Where one more event follows the second one with the ID, and no third one has it, `removeEvent`
  -- returns a list that still holds the second one and has lost the event behind it.
  pub remove_event_loses :
      (c : AuditEventSummary) (post : List AuditEventSummary)
      → matches event.id (c ∷ post) ≡ 0
      → remove_event (pre ++ a ∷ (mid ++ b ∷ (c ∷ post))) (some event)
        ≡ returned (pre ++ (mid ++ b ∷ post))
  remove_event_loses c post h =
      remove_event_second pre mid (c ∷ post) a b event unseen_before unseen_between first second
      ∙ rw (← regroup (c ∷ post), ← count)
          (rw (delete_index_middle (pre ++ (mid ++ b ∷ [])) post c) (
            rw (regroup post)
              (remove_loop_none event.id _ (c ∷ post) (pre ++ (mid ++ b ∷ post)) h)))
    where
      regroup : (t : List AuditEventSummary) → (pre ++ (mid ++ b ∷ [])) ++ t ≡ pre ++ (mid ++ b ∷ t)
      regroup t =
          append_assoc pre (mid ++ b ∷ []) t ∙ ap (λ s. pre ++ s) (append_assoc mid (b ∷ []) t)

      count : length (pre ++ (mid ++ b ∷ [])) ≡ length mid + suc (length pre)
      count = omega (arith, length-append pre (mid ++ b ∷ []), length-append mid (b ∷ []))
