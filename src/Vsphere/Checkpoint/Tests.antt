-- ===== src/Vsphere/Checkpoint/Tests.antt =====
-- Examples for the checkpoint configuration, with durations written in unary.
use Prim.Native.Char.{code}
use sources_for_knative.Base.{
  if◌then◌else◌, nat_beq, ℕ, zero, suc, String, ℤ, pos, negsuc, ◌≡◌, ◌≢◌, refl, ap, Option, none,
  some, arith,
}
use sources_for_knative.Vsphere.Checkpoint.{
  CheckpointConfig, Intervals, Formats, IsFaithful, ok, marshal_json, unmarshal_json,
}
use sources_for_knative.Vsphere.Checkpoint.Config.{unmarshal_json-marshal_json}

unary : ℕ → String
unary zero = String.[]
unary (suc n) = String.◌∷◌ "i" (unary n)

count : String → ℕ
count String.[] = 0
count (String.◌∷◌ c s) = suc (count s)

count-unary : (n : ℕ) → count (unary n) ≡ n
unfolding count unary
count-unary zero = refl
count-unary (suc n) = ap suc (count-unary n)

pub print_unary : ℤ → String
print_unary (pos n) = String.◌∷◌ "+" (unary n)
print_unary (negsuc n) = String.◌∷◌ "-" (unary n)

pub parse_unary : String → Option ℤ
unfolding count
parse_unary String.[] = none
parse_unary (String.◌∷◌ c s) =
    if nat_beq (code c) b'+' then some (pos (count s)) else some (negsuc (count s))

parse_unary-print_unary : (d : ℤ) → parse_unary (print_unary d) ≡ some d
unfolding parse_unary print_unary
parse_unary-print_unary (pos n) = ap (λ k. some (pos k)) (count-unary n)
parse_unary-print_unary (negsuc n) = ap (λ k. some (negsuc k)) (count-unary n)

print_unary_not_empty : (d : ℤ) → print_unary d ≢ ""
unfolding print_unary
print_unary_not_empty (pos n) h = absurd cc
print_unary_not_empty (negsuc n) h = absurd cc

abbrev pub unary_formats : Formats
unary_formats = record {
  Bytes = Intervals;
  parse_duration = parse_unary;
  print_duration = print_unary;
  decode = λ i. some i;
  encode = λ i. i;
}

pub unary_formats-IsFaithful : IsFaithful unary_formats
unary_formats-IsFaithful = record {
  parse-print = parse_unary-print_unary;
  print_not_empty = print_unary_not_empty;
  decode-encode = λ i. refl;
}

abbrev seven_three : CheckpointConfig
seven_three = record { max_age = pos 7; period = pos 3 }

unmarshal_json-marshal_json_example :
    (bytes : Intervals) × (marshal_json unary_formats seven_three ≡ ok bytes)
    × (unmarshal_json unary_formats bytes (record { max_age = pos 0; period = pos 0 })
        ≡ (none, seven_three))
unmarshal_json-marshal_json_example =
    unmarshal_json-marshal_json unary_formats unary_formats-IsFaithful seven_three
      (record { max_age = pos 0; period = pos 0 }) (omega arith) (omega arith)
