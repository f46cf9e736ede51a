-- ===== src/Horizon/Events.antt =====
-- pkg/horizon/types.go, and the list helpers `reverse` and `removeEvent` of pkg/horizon/adapter.go.
pub mod Reverse
mod Tests
pub mod Remove
use sources_for_knative.Base.{
  ℕ, zero, suc, ◌-◌, ◌/◌, String, ℤ, pos, Option, none, some, List, [], ◌∷◌, ◌++◌, length, get_or,
  set, take, drop, leb, ◌==◌, int_eq, if◌then◌else◌,
}

-- AuditEventSummary
pub record AuditEventSummary : Type 0 where
  pub application_pool_name : String
  pub desktop_pool_name : String
  pub id : ℤ
  pub machine_dns_name : String
  pub machine_id : String
  pub message : String
  pub module_name : String
  pub severity : String
  pub time : ℤ
  pub event_type : String
  pub user_id : String

-- The zero value `AuditEventSummary{}`.
abbrev pub zero_event : AuditEventSummary
zero_event = record {
  application_pool_name = "";
  desktop_pool_name = "";
  id = pos 0;
  machine_dns_name = "";
  machine_id = "";
  message = "";
  module_name = "";
  severity = "";
  time = pos 0;
  event_type = "";
  user_id = "";
}

-- `ev[i], ev[opp] = ev[opp], ev[i]`; the loop below keeps both indices in range.
swap : List AuditEventSummary → ℕ → ℕ → List AuditEventSummary
swap ev i opp = set (set ev i (get_or ev opp zero_event)) opp (get_or ev i zero_event)

-- The loop of `reverse` with `rounds` = i + 1 rounds left.
reverse_loop : ℕ → List AuditEventSummary → List AuditEventSummary
reverse_loop zero ev = ev
reverse_loop (suc i) ev = reverse_loop i (swap ev i (length ev - 1 - i))

unfoldable pub reverse : List AuditEventSummary → List AuditEventSummary
unfolding reverse_loop swap
reverse ev = reverse_loop (length ev / 2) ev

-- What a Go function does that slices: it returns a value, or it panics.
pub data Outcome {ℓ} (A : Type ℓ) : Type ℓ where
  returned : A → Outcome A
  panicked : Outcome A

-- `copy(deduped[i:], deduped[i+1:])` for i < len: the last element stays where it was.
shift_left : ℕ → List AuditEventSummary → List AuditEventSummary
shift_left i deduped = take i deduped ++ (drop (suc i) deduped ++ drop (length deduped - 1) deduped)

-- The three statements that remove index i: shift, erase the last element, truncate. Slicing
-- `deduped[i+1:]` panics if i + 1 is beyond the length.
delete_index : ℕ → List AuditEventSummary → Outcome (List AuditEventSummary)
unfolding shift_left
delete_index i deduped =
    if leb (suc i) (length deduped)
    then (let shifted = shift_left i deduped in
        returned (take (length shifted - 1) (set shifted (length shifted - 1) zero_event)))
    else panicked

infixl 5 ◌>>=◌
abbrev pub ◌>>=◌ {ℓ κ} : {A : Type ℓ} {B : Type κ} → Outcome A → (A → Outcome B) → Outcome B
returned a >>= f = f a
panicked >>= f = panicked

-- The loop of `removeEvent` from index i on, over what is left of `list`. `deduped` is a copy of
-- its own, so a removal does not change what the loop still reads.
remove_loop :
    ℤ → ℕ → List AuditEventSummary → List AuditEventSummary → Outcome (List AuditEventSummary)
remove_loop id i [] deduped = returned deduped
remove_loop id i (x ∷ xs) deduped =
    (if x.id == id then delete_index i deduped else returned deduped) >>= remove_loop id (suc i) xs

unfoldable pub remove_event :
    List AuditEventSummary → Option AuditEventSummary → Outcome (List AuditEventSummary)
unfolding remove_loop delete_index
remove_event list none = returned list
remove_event list (some event) = remove_loop event.id 0 list list
