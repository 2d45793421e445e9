-- ===== src/Attestation/History.antt =====
-- src/statewake/adapters/attestation_trust_history.py: the append-only history of trust states. The
-- file is the list of its lines; a line is blank, or it is decoded to a state or raises.
pub mod Keeps
pub mod Signing
pub mod Append
use state_wake.Base.{
  ℕ, zero, suc, String, ◌<>◌, Bool, true, false, not, ◌&&◌, ◌||◌, Option, none, some, List, [], ◌∷◌,
  ◌++◌, elem, any, is_some, length, leb, ◌==◌, Error, value_error, overflow_error, Result, Check,
  ok, err, ◌>>=◌, ◌>>◌, raise_if, if◌then◌else◌, ◌=ₛ◌,
}
use state_wake.Attestation.{
  AttestationTrustAnchor, SignedAttestationTrustState, Externals, anchor_ids,
  validate_attestation_trust_transition,
}

pub data Line : Type 0 where
  blank : Line
  decoded : Result SignedAttestationTrustState → Line

-- `except (...) as exc: raise ValueError(...) from exc`
abbrev pub invalid_line : Error
invalid_line = value_error "Invalid attestation trust history at line"

abbrev pub wrap {ℓ} : {A : Type ℓ} → Result A → Result A
wrap (ok a) = ok a
wrap (err _) = err invalid_line

-- `max_records is not None and len(result) >= max_records`
unfoldable pub over_limit : Option ℕ → ℕ → Bool
over_limit none count = false
over_limit (some m) count = leb m count

-- `(current_ids & previously_seen) - previous_ids` is not empty
unfoldable pub reappears : List String → List String → List String → Bool
reappears seen previous_ids current_ids =
    any (λ id. elem id seen && not (elem id previous_ids)) current_ids

abbrev pub ids_of : Option SignedAttestationTrustState → List String
ids_of none = []
ids_of (some s) = anchor_ids s.anchors

-- `max_records is not None and max_records <= 0`
pub is_zero : Option ℕ → Bool
is_zero none = false
is_zero (some m) = m == 0

module _ (x : Externals) where
  -- the body of the `try` after the decoding
  unfoldable pub check_record :
      Option SignedAttestationTrustState → List String → SignedAttestationTrustState → Check
  check_record previous seen state = do
    validate_attestation_trust_transition x previous state
    raise_if (is_some previous && reappears seen (ids_of previous) (anchor_ids state.anchors))
        (value_error "attestation trust key cannot reappear after removal: ")

  -- The loop of `_parse_history_records`; `previous_ids` of the source is `ids_of previous`.
  unfoldable pub parse_from :
      Option ℕ
      → ℕ
      → Option SignedAttestationTrustState
      → List String
      → List Line
      → Result (List SignedAttestationTrustState)
  parse_from max_records count previous seen [] = ok []
  parse_from max_records count previous seen (blank ∷ lines) =
      parse_from max_records count previous seen lines
  parse_from max_records count previous seen (decoded r ∷ lines) = do
    raise_if (over_limit max_records count)
        (overflow_error "attestation trust history record count exceeds read limit")
    state ← wrap r
    wrap (check_record previous seen state)
    rest ← parse_from max_records (suc count) (some state) (anchor_ids state.anchors ++ seen) lines
    ok (state ∷ rest)

  unfoldable pub parse_history_records :
      Option ℕ → List Line → Result (List SignedAttestationTrustState)
  unfolding is_zero
  parse_history_records max_records lines = do
    raise_if (is_zero max_records) (value_error "max_records must be positive when provided")
    parse_from max_records 0 none [] lines
