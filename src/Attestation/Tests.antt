-- ===== src/Attestation/Tests.antt =====
-- The attestation theorems at concrete histories: the key "a" is listed, dropped, and listed again.
use state_wake.Base.{
  ℕ, String, ◌≡◌, refl, false, none, some, List, [], ◌∷◌, ◌++◌, ok, Check, arith, text_functions,
  text_length, aware,
}
use state_wake.Attestation.{
  true, check_kept, active, AttestationTrustAnchor, SignedAttestationTrustState, Externals, by_id,
  anchor_ids, check_state, check_anchor, validate_attestation_trust_transition,
  attestation_signing_key_status,
}
use state_wake.Attestation.History.{
  Line, blank, decoded, parse_history_records, parse_from, check_record, reappears, ids_of,
  over_limit,
}
use state_wake.Attestation.History.Append.{all_ids, Raises}
use state_wake.Attestation.History.Keeps.{NeverBack, parse_history-NeverBack}
use state_wake.Attestation.History.Signing.{signing_key_always_active}
use state_wake.Attestation.Store.{File, read, append, write, join_last, joined}
use state_wake.Attestation.Store.Readback.{append_poisons, append_then_read}

abbrev hex : String
hex = "0123456789abcdef0123456789abcdef0123456789abcdef0123456789abcdef"

abbrev key : List ℕ
key =
    0 ∷ 1 ∷ 2 ∷ 3 ∷ 4 ∷ 5 ∷ 6 ∷ 7 ∷ 8 ∷ 9 ∷ 10 ∷ 11 ∷ 12 ∷ 13 ∷ 14 ∷ 15 ∷ 16 ∷ 17 ∷ 18 ∷ 19 ∷ 20
    ∷ 21 ∷ 22 ∷ 23 ∷ 24 ∷ 25 ∷ 26 ∷ 27 ∷ 28 ∷ 29 ∷ 30 ∷ 31 ∷ []

-- every state has one digest, and a text stands for the instant of its length
abbrev outside : Externals
outside = record { digest = λ _. hex; from_isoformat = λ s. some (aware (text_length s)) }

abbrev signed : SignedAttestationTrustState → Check
signed _ = ok tt

abbrev anchor : String → AttestationTrustAnchor
anchor id = record { key_id = id; public_key = key; status = active; superseded_by = none }

abbrev first : SignedAttestationTrustState
first = record {
  authority_key_id = "root";
  version = 1;
  issued_at = "1";
  anchors = anchor "a" ∷ anchor "b" ∷ [];
  signature = "s";
  previous_digest = none;
}

abbrev dropped : SignedAttestationTrustState
dropped = record {
  authority_key_id = "root";
  version = 2;
  issued_at = "22";
  anchors = anchor "b" ∷ [];
  signature = "s";
  previous_digest = some hex;
}

abbrev returned : SignedAttestationTrustState
returned = record {
  authority_key_id = "root";
  version = 3;
  issued_at = "333";
  anchors = anchor "a" ∷ anchor "b" ∷ [];
  signature = "s";
  previous_digest = some hex;
}

abbrev steady : SignedAttestationTrustState
steady = record returned { anchors = anchor "b" ∷ [] }

abbrev lines : List Line
lines = decoded (ok first) ∷ blank ∷ decoded (ok dropped) ∷ []

abbrev file : File
file = record { lines = lines; ended = true }

-- the same history, with white space behind its last newline
abbrev spaced : File
spaced = record { lines = lines ++ blank ∷ []; ended = false }

states-check : (check_state returned ≡ ok tt) × (check_anchor (anchor "a") ≡ ok tt)
unfolding check_state check_anchor text_functions
states-check = (refl, refl)

parsed : parse_history_records outside (some 1000000) lines ≡ ok (first ∷ dropped ∷ [])
unfolding parse_history_records parse_from check_record reappears over_limit
    validate_attestation_trust_transition check_kept by_id text_length
parsed = refl

spaced-reads : read outside signed (write spaced steady) ≡ ok (first ∷ dropped ∷ steady ∷ [])
unfolding read write join_last joined parse_history_records parse_from check_record reappears
    over_limit validate_attestation_trust_transition check_kept by_id text_length
spaced-reads = refl

readable : read outside signed file ≡ ok (first ∷ dropped ∷ [])
unfolding read parse_history_records parse_from check_record reappears over_limit
    validate_attestation_trust_transition check_kept by_id text_length
readable = refl

accepted : append outside signed returned file ≡ ok (returned, write file returned)
unfolding append parse_history_records parse_from check_record reappears over_limit
    validate_attestation_trust_transition check_kept by_id text_length
accepted = refl

accepted-steady : append outside signed steady file ≡ ok (steady, write file steady)
unfolding append parse_history_records parse_from check_record reappears over_limit
    validate_attestation_trust_transition check_kept by_id text_length
accepted-steady = refl

append_poisons_example :
    Raises (read outside signed (write file returned))
    × ((t : SignedAttestationTrustState) → Raises (append outside signed t (write file returned)))
append_poisons_example =
    append_poisons outside signed returned dropped file (first ∷ dropped ∷ []) "a" readable accepted
      refl refl refl refl

no_return :
    reappears (all_ids (first ∷ dropped ∷ [])) (ids_of (some dropped)) (anchor_ids steady.anchors)
    ≡ false
unfolding reappears
no_return = refl

append_then_read_example :
    (read outside signed (write file steady) ≡ ok (first ∷ dropped ∷ steady ∷ []))
    × ((write file steady).ended ≡ true)
append_then_read_example =
    append_then_read outside signed steady file (first ∷ dropped ∷ []) readable refl accepted-steady
      no_return (omega arith)

parse_history-NeverBack_example : NeverBack (first ∷ dropped ∷ [])
parse_history-NeverBack_example =
    parse_history-NeverBack outside (some 1000000) lines (first ∷ dropped ∷ []) parsed

signs : attestation_signing_key_status dropped "b" ≡ ok (anchor "b")
unfolding attestation_signing_key_status
signs = refl

first_lists : by_id first.anchors "b" ≡ some (anchor "b")
unfolding by_id
first_lists = refl

signing_key_always_active_example : (active ≡ active) × (key ≡ key)
signing_key_always_active_example =
    signing_key_always_active outside (some 1000000) lines [] [] [] first dropped "b" (anchor "b")
      (anchor "b") parsed signs first_lists
