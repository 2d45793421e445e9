-- ===== src/Attestation.antt =====
-- src/statewake/domain/attestation_trust.py: anchors, signed trust states and the check of one
-- transition between two states. Versions are positive in the source, so they are naturals here.
pub mod History
pub mod Store
mod Tests
use state_wake.Base.{
  is_empty, ℕ, suc, String, ◌<>◌, Bool, true, false, not, ◌&&◌, ◌||◌, Option, none, some, List, [],
  ◌∷◌, map, ◌=ₛ◌, is_blank, is_sha256, any, is_distinct, is_some, length, leb, ◌==◌, Datetime,
  is_naive, instant, value_error, Result, Check, ok, err, ◌>>=◌, ◌>>◌, raise_if, if◌then◌else◌,
}

pub data AnchorStatus : Type 0 where
  active revoked superseded : AnchorStatus

abbrev pub status_eq : AnchorStatus → AnchorStatus → Bool
status_eq active active = true
status_eq revoked revoked = true
status_eq superseded superseded = true
status_eq _ _ = false

-- the test of `status` in `__post_init__`, as the reading of a text
pub parse_status : String → Result AnchorStatus
parse_status s =
    if s =ₛ "active"
    then ok active
    else if s =ₛ "revoked"
    then ok revoked
    else if s =ₛ "superseded"
    then ok superseded
    else err (value_error "unsupported attestation trust-anchor status.")

-- `==` on byte strings
abbrev pub bytes_eq : List ℕ → List ℕ → Bool
bytes_eq [] [] = true
bytes_eq (a ∷ xs) (b ∷ ys) = a == b && bytes_eq xs ys
bytes_eq _ _ = false

-- `==` on optional texts
abbrev pub option_eq : Option String → Option String → Bool
option_eq none none = true
option_eq (some a) (some b) = a =ₛ b
option_eq _ _ = false

pub record AttestationTrustAnchor : Type 0 where
  pub key_id : String
  pub public_key : List ℕ
  pub status : AnchorStatus
  pub superseded_by : Option String

-- `value or ""`
abbrev pub or_empty : Option String → String
or_empty none = ""
or_empty (some s) = s

-- AttestationTrustAnchor.__post_init__, after `parse_status`
unfoldable pub check_anchor : AttestationTrustAnchor → Check
check_anchor a = do
  raise_if (is_blank a.key_id) (value_error "key_id must not be empty.")
  raise_if (not (length a.public_key == 32)) (value_error "Ed25519 public key must be 32 bytes.")
  raise_if (status_eq a.status superseded && is_blank (or_empty a.superseded_by))
      (value_error "superseded attestation trust anchors must identify a replacement key.")
  raise_if (not (status_eq a.status superseded) && is_some a.superseded_by)
      (value_error "only superseded attestation trust anchors may declare superseded_by.")

pub record SignedAttestationTrustState : Type 0 where
  pub authority_key_id : String
  pub version : ℕ
  pub issued_at : String
  pub anchors : List AttestationTrustAnchor
  pub signature : String
  pub previous_digest : Option String

abbrev pub anchor_ids : List AttestationTrustAnchor → List String
anchor_ids = map (λ (a : AttestationTrustAnchor). a.key_id)

-- the test on `previous_digest`
is_bad_digest : Option String → Bool
is_bad_digest none = false
is_bad_digest (some d) = not (is_sha256 d)

-- `b.key_id == a.superseded_by`
is_named : Option String → String → Bool
is_named none id = false
is_named (some s) id = id =ₛ s

-- SignedAttestationTrustState.__post_init__
unfoldable pub check_state : SignedAttestationTrustState → Check
unfolding is_bad_digest is_named
check_state s = do
  raise_if (is_blank s.authority_key_id) (value_error "authority_key_id must not be empty.")
  raise_if (s.version == 0) (value_error "attestation trust state version must be >= 1.")
  raise_if (is_blank s.issued_at) (value_error "issued_at must not be empty.")
  raise_if (not (is_distinct (anchor_ids s.anchors)))
      (value_error "attestation trust state contains duplicate key ids.")
  raise_if (is_blank s.signature) (value_error "signature must not be empty.")
  raise_if (is_bad_digest s.previous_digest)
      (value_error "previous_digest must be lowercase SHA-256 hex.")
  raise_if
      (any
        (λ a.
          status_eq a.status superseded
          && not
              (any (λ (b : AttestationTrustAnchor). is_named a.superseded_by b.key_id) s.anchors))
        s.anchors)
      (value_error "superseded attestation trust anchor references unknown replacement.")

-- `{anchor.key_id: anchor for anchor in anchors}.get(key_id)`; the names are distinct
unfoldable pub by_id : List AttestationTrustAnchor → String → Option AttestationTrustAnchor
by_id [] key_id = none
by_id (a ∷ rest) key_id = if a.key_id =ₛ key_id then some a else by_id rest key_id

-- one round of the loop over the previous anchors: `new` is what the current state has for `old`
pub check_kept : AttestationTrustAnchor → Option AttestationTrustAnchor → Check
check_kept old none = ok tt
check_kept old (some new) = do
  raise_if (not (bytes_eq new.public_key old.public_key))
      (value_error ("attestation trust key material changed for " <> old.key_id))
  raise_if (status_eq old.status revoked && not (status_eq new.status revoked))
      (value_error ("revoked attestation trust key cannot be reactivated: " <> old.key_id))
  raise_if
      (status_eq old.status superseded
        && (not (status_eq new.status superseded)
            || not (option_eq new.superseded_by old.superseded_by)))
      (value_error
        ("superseded attestation trust key cannot be reactivated or retargeted: " <> old.key_id))

check_all_kept : List AttestationTrustAnchor → List AttestationTrustAnchor → Check
check_all_kept current [] = ok tt
check_all_kept current (old ∷ rest) = do
  check_kept old (by_id current old.key_id)
  check_all_kept current rest

-- `successor is None or successor.status != "active"`
no_successor : Option AttestationTrustAnchor → Bool
no_successor none = true
no_successor (some a) = not (status_eq a.status active)

-- the loop over the current anchors
check_all_new :
    List AttestationTrustAnchor → List AttestationTrustAnchor → List AttestationTrustAnchor → Check
unfolding no_successor
check_all_new previous current [] = ok tt
check_all_new previous current (new ∷ rest) = do
  raise_if (not (is_some (by_id previous new.key_id)) && not (status_eq new.status active))
      (value_error ("new attestation trust key must first appear active: " <> new.key_id))
  raise_if
      (status_eq new.status superseded && no_successor (by_id current (or_empty new.superseded_by)))
      (value_error
        ("superseded attestation trust key requires an active successor: " <> new.key_id))
  check_all_new previous current rest

-- What the check takes from outside: `digest` is the canonical SHA-256 of a state, `from_isoformat`
-- is `datetime.fromisoformat`, with none where it raises.
pub record Externals : Type 0 where
  pub digest : SignedAttestationTrustState → String
  pub from_isoformat : String → Option Datetime

-- the inner function `issued`
issued : Externals → String → Result ℕ
issued x value = elim (x.from_isoformat value) [
  | none ↦ err (value_error "attestation trust-state issued_at must be ISO-8601.")
  | some d ↦
      if is_naive d
      then err (value_error "attestation trust-state issued_at must include a timezone.")
      else ok (instant d)
]

pub validate_attestation_trust_transition :
    Externals → Option SignedAttestationTrustState → SignedAttestationTrustState → Check
unfolding check_all_kept check_all_new issued
validate_attestation_trust_transition x none current =
    raise_if (is_some current.previous_digest)
      (value_error "initial attestation trust state must not name a predecessor.")
validate_attestation_trust_transition x (some previous) current = do
  raise_if (not (current.version == suc previous.version))
      (value_error "attestation trust-state versions must advance by exactly one.")
  raise_if (not (option_eq current.previous_digest (some (x.digest previous))))
      (value_error "attestation trust-state previous_digest does not match history tip.")
  now ← issued x current.issued_at
  before ← issued x previous.issued_at
  raise_if (leb now before)
      (value_error "attestation trust-state issued_at must increase monotonically.")
  check_all_kept current.anchors previous.anchors
  check_all_new previous.anchors current.anchors current.anchors

pub apply_attestation_trust_state :
    SignedAttestationTrustState → Option String → Result (List (String × AnchorStatus))
apply_attestation_trust_state s expected = do
  raise_if (not (option_eq s.previous_digest expected)) (
      value_error
        "attestation trust-state previous_digest does not match the current trust-state tip.")
  ok (map (λ a. (a.key_id, a.status)) s.anchors)

-- the text of a status
status_text : AnchorStatus → String
status_text active = "active"
status_text revoked = "revoked"
status_text superseded = "superseded"

-- `if anchor.superseded_by: reason += f" by {anchor.superseded_by}"`
by_successor : Option String → String
by_successor none = ""
by_successor (some s) = if is_empty s then "" else " by " <> s

-- the loop over `state.anchors`
pub signing_key_status : List AttestationTrustAnchor → String → Result AttestationTrustAnchor
unfolding status_text by_successor
signing_key_status [] key_id =
    err (value_error ("attestation signing key is not trusted: " <> key_id))
signing_key_status (a ∷ rest) key_id =
    if a.key_id =ₛ key_id
    then (if status_eq a.status active
        then ok a
        else err (
            value_error (
              "attestation signing key "
              <> key_id
              <> " is "
              <> status_text a.status
              <> by_successor a.superseded_by
              <> ".")))
    else signing_key_status rest key_id

pub attestation_signing_key_status :
    SignedAttestationTrustState → String → Result AttestationTrustAnchor
unfolding signing_key_status
attestation_signing_key_status s = signing_key_status s.anchors
