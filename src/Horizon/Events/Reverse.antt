-- ===== src/Horizon/Events/Reverse.antt =====
-- `reverse` swaps in place: it is the reversal of the list.
use mathlib.Core.List.{reverse-cons}
use mathlib.Core.List as L
use sources_for_knative.Base.{
  ℕ, zero, suc, ◌-◌, ◌*◌, ◌/◌, ◌≤◌, ◌<◌, ◌≡◌, refl, sym, ◌∙◌, ◌&&◌, ◌||◌, some, List, [], ◌∷◌,
  length, length-append, length-set, get_elem?, get_or, set, get_elem?-eq-get_or,
  get_elem?-length_le, get_elem?-append, get_elem?_ext, ltb, leb, nat_beq, if◌then◌else◌, arith,
  Bool-cases, inl, inr,
}
use sources_for_knative.Horizon.Events.{AuditEventSummary, zero_event, swap, reverse_loop, reverse}

length-swap : (ev : List AuditEventSummary) (i j : ℕ) → length (swap ev i j) ≡ length ev
unfolding swap
length-swap ev i j = length-set (set ev i (get_or ev j zero_event)) j _ ∙ length-set ev i _

-- What stands where after a write.
get_elem?-set_if :
    (ev : List AuditEventSummary) (i k : ℕ) (v : AuditEventSummary)
    → get_elem? (set ev i v) k
      ≡ (if nat_beq k i && ltb i (length ev) then some v else get_elem? ev k)
get_elem?-set_if [] i k v = ground arith
get_elem?-set_if (x ∷ ev) zero zero v = ground arith
get_elem?-set_if (x ∷ ev) zero (suc k) v = ground arith
get_elem?-set_if (x ∷ ev) (suc i) zero v = ground arith
get_elem?-set_if (x ∷ ev) (suc i) (suc k) v = ground (arith, get_elem?-set_if ev i k v)

-- What stands where after a swap.
get_elem?-swap :
    (ev : List AuditEventSummary) (i j k : ℕ)
    → i < j
    → j < length ev
    → get_elem? (swap ev i j) k ≡ (
        if nat_beq k i
        then get_elem? ev j
        else if nat_beq k j
        then get_elem? ev i
        else get_elem? ev k)
unfolding swap
get_elem?-swap ev i j k lo hi = ground (
  arith,
  get_elem?-set_if (set ev i (get_or ev j zero_event)) j k (get_or ev i zero_event),
  get_elem?-set_if ev i k (get_or ev j zero_event),
  length-set ev i (get_or ev j zero_event),
  get_elem?-eq-get_or ev i zero_event,
  get_elem?-eq-get_or ev j zero_event,
)

length-reverse : (ev : List AuditEventSummary) → length (L.reverse ev) ≡ length ev
length-reverse [] = refl
length-reverse (x ∷ ev) =
    rw (reverse-cons x ev) (omega (arith, length-append (L.reverse ev) (x ∷ []), length-reverse ev))

get_elem?-reverse :
    (ev : List AuditEventSummary) (k : ℕ)
    → k < length ev
    → get_elem? (L.reverse ev) k ≡ get_elem? ev (length ev - 1 - k)
get_elem?-reverse [] k h = elim h [ ]
get_elem?-reverse (x ∷ ev) k h =
    rw (reverse-cons x ev, get_elem?-append (L.reverse ev) (x ∷ []) k, length-reverse ev)
      (elim (Bool-cases (ltb k (length ev))) [
        | inl below ↦
            let e : suc (length ev) - 1 - k ≡ suc (length ev - 1 - k) = ground arith in
            rw (below, e) (get_elem?-reverse ev k (ground arith))
        | inr last ↦
            let e : suc (length ev) - 1 - k ≡ 0 = ground arith in
            let f : k - length ev ≡ 0 = ground arith in rw (last, e, f)
      ])

-- The pairs that `rounds` rounds have exchanged are those outside the middle.
get_elem?-reverse_loop :
    (rounds : ℕ) (ev : List AuditEventSummary) (k : ℕ)
    → rounds * 2 ≤ length ev
    → k < length ev
    → get_elem? (reverse_loop rounds ev) k ≡ (
        if ltb k rounds || leb (length ev - rounds) k
        then get_elem? ev (length ev - 1 - k)
        else get_elem? ev k)
unfolding reverse_loop
get_elem?-reverse_loop zero ev k fits h = ground arith
get_elem?-reverse_loop (suc i) ev k fits h =
    let opp = length ev - 1 - i in
    ground (
      arith,
      get_elem?-reverse_loop i (swap ev i opp) k,
      length-swap ev i opp,
      get_elem?-swap ev i opp k,
      get_elem?-swap ev i opp (length ev - 1 - k),
    )

length-reverse_loop :
    (rounds : ℕ) (ev : List AuditEventSummary) → length (reverse_loop rounds ev) ≡ length ev
unfolding reverse_loop
length-reverse_loop zero ev = refl
length-reverse_loop (suc i) ev =
    length-reverse_loop i (swap ev i (length ev - 1 - i)) ∙ length-swap ev i (length ev - 1 - i)

-- `reverse` returns the events in the opposite order, whatever the length of the slice.
pub reverse_lem : (ev : List AuditEventSummary) → reverse ev ≡ L.reverse ev
unfolding reverse
reverse_lem ev = get_elem?_ext _ _ λ k. elim (Bool-cases (ltb k (length ev))) [
  | inl inside ↦ ground (arith, get_elem?-reverse_loop (length ev / 2) ev k, get_elem?-reverse ev k)
  | inr outside ↦
      get_elem?-length_le _ k (ground (arith, length-reverse_loop (length ev / 2) ev))
      ∙ sym (get_elem?-length_le _ k (ground (arith, length-reverse ev)))
]
