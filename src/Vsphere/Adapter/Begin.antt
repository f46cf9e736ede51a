-- ===== src/Vsphere/Adapter/Begin.antt =====
-- Where the event stream begins: `getBeginFromCheckpoint`.
use sources_for_knative.Base.{
  ℤ, pos, negsuc, ◌-ℤ◌, ◌≤ℤ◌, ltb_ℤ, floor_div, ◌≡◌, ◌≢◌, false, ◌==◌, int_eq, Bool-cases, test_ne,
  inl, inr, arith, -ℤ_parts,
}
use sources_for_knative.Vsphere.Adapter.{unix, get_begin}

unix_mono : (a b : ℤ) → a ≤ℤ b → unix a ≤ℤ unix b
unfolding unix floor_div
unix_mono (pos a) (pos b) h = omega arith
unix_mono (pos a) (negsuc b) h = absurd (omega arith)
unix_mono (negsuc a) (pos b) h = omega arith
unix_mono (negsuc a) (negsuc b) h = omega arith

sub_le : (a b : ℤ) → pos 0 ≤ℤ b → a -ℤ b ≤ℤ a
sub_le a b h = omega (arith, -ℤ_parts a b)

-- With a replay window that is not negative, the stream never begins at an earlier second than the
-- window does, whatever the checkpoint says.
pub get_begin_window :
    (vc_time cp_time max_age : ℤ)
    → pos 0 ≤ℤ max_age
    → unix (vc_time -ℤ max_age) ≤ℤ unix (get_begin vc_time cp_time max_age)
unfolding get_begin
get_begin_window vc_time cp_time max_age h = elim (Bool-cases (cp_time == pos 0)) [
  | inl none_yet ↦ rw none_yet (unix_mono (vc_time -ℤ max_age) vc_time (sub_le vc_time max_age h))
  | inr valid ↦ elim (Bool-cases (ltb_ℤ (unix cp_time) (unix (vc_time -ℤ max_age)))) [
    | inl old ↦ rw (valid, old) (omega arith)
    | inr recent ↦ rw (valid, recent) (ground arith)
  ]
]

-- With a checkpoint whose second is not before the window, the stream begins exactly at the event
-- of the checkpoint, so no event after it is left out.
get_begin_resumes :
    (vc_time cp_time max_age : ℤ)
    → cp_time ≢ pos 0
    → unix (vc_time -ℤ max_age) ≤ℤ unix cp_time
    → get_begin vc_time cp_time max_age ≡ cp_time
unfolding get_begin
get_begin_resumes vc_time cp_time max_age h k =
    let recent : ltb_ℤ (unix cp_time) (unix (vc_time -ℤ max_age)) ≡ false = ground arith in
    rw (test_ne cp_time (pos 0) h, recent)

sub_zero : (a : ℤ) → a -ℤ pos 0 ≡ a
unfolding ◌-ℤ◌
sub_zero a = ground arith

-- A replay window of 0 does not keep events from being replayed: a checkpoint of the current second
-- of vCenter, or of a later one, is where the stream begins.
get_begin_zero_window :
    (vc_time cp_time : ℤ)
    → cp_time ≢ pos 0
    → unix vc_time ≤ℤ unix cp_time
    → get_begin vc_time cp_time (pos 0) ≡ cp_time
get_begin_zero_window vc_time cp_time h k =
    get_begin_resumes vc_time cp_time (pos 0) h (rw (sub_zero vc_time) k)
