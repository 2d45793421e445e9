-- ===== src/Attestation/Store.antt =====
-- JsonlAttestationTrustHistoryStore of src/statewake/adapters/attestation_trust_history.py. The
-- store is its file, as the lines that `splitlines` gives and whether the last one ends with a
-- newline; the lock makes each method one step. The tests of the path for symbolic links are not
-- modelled: they look at the file system only.
pub mod Readback
mod Written
use state_wake.Base.{
  ℕ, String, Bool, true, false, not, ◌&&◌, Option, none, some, List, [], ◌∷◌, ◌++◌, last, ◌=ₛ◌,
  ◌==◌, value_error, Result, Check, ok, err, ◌>>=◌, ◌>>◌, raise_if, if◌then◌else◌,
}
use state_wake.Attestation.{
  AttestationTrustAnchor, SignedAttestationTrustState, Externals, status_eq, bytes_eq, option_eq,
  validate_attestation_trust_transition,
}
use state_wake.Attestation.History.{Line, blank, decoded, parse_history_records}

-- `existing.to_dict() == verified.to_dict()`; the encoding of keys as base64 is one to one
anchor_eq : AttestationTrustAnchor → AttestationTrustAnchor → Bool
anchor_eq a b =
    (a.key_id =ₛ b.key_id)
    && bytes_eq a.public_key b.public_key
    && status_eq a.status b.status
    && option_eq a.superseded_by b.superseded_by

anchors_eq : List AttestationTrustAnchor → List AttestationTrustAnchor → Bool
unfolding anchor_eq
anchors_eq [] [] = true
anchors_eq (a ∷ xs) (b ∷ ys) = anchor_eq a b && anchors_eq xs ys
anchors_eq _ _ = false

state_eq : SignedAttestationTrustState → SignedAttestationTrustState → Bool
unfolding anchors_eq
state_eq s t =
    (s.authority_key_id =ₛ t.authority_key_id)
    && s.version == t.version
    && (s.issued_at =ₛ t.issued_at)
    && anchors_eq s.anchors t.anchors
    && (s.signature =ₛ t.signature)
    && option_eq s.previous_digest t.previous_digest

-- the record of that version, if there is one
same_version : ℕ → List SignedAttestationTrustState → Option SignedAttestationTrustState
same_version v [] = none
same_version v (s ∷ rest) = if s.version == v then some s else same_version v rest

pub record File : Type 0 where
  pub lines : List Line
  -- the last line, if there is one, ends with its newline
  pub ended : Bool

-- A record written into a line that has begun: behind white space it is the record, and behind a
-- document json.loads refuses it.
unfoldable pub joined : Line → SignedAttestationTrustState → Line
joined blank s = decoded (ok s)
joined (decoded _) s = decoded (err (value_error "Extra data"))

-- `os.write` of the record to a file opened with O_APPEND whose last line has no newline
unfoldable pub join_last : List Line → SignedAttestationTrustState → List Line
unfolding joined
join_last [] s = decoded (ok s) ∷ []
join_last (l ∷ []) s = joined l s ∷ []
join_last (l ∷ k ∷ rest) s = l ∷ join_last (k ∷ rest) s

-- the file after that `os.write`: the record is written with its own newline
unfoldable pub write : File → SignedAttestationTrustState → File
unfolding join_last
write f s = record {
  lines = if f.ended then f.lines ++ decoded (ok s) ∷ [] else join_last (f.lines) s;
  ended = true;
}

-- `x` is what the history takes from outside, `verify` the signature check of the verifier.
module _ (x : Externals) (verify : SignedAttestationTrustState → Check) where
  verify_all : List SignedAttestationTrustState → Check
  verify_all [] = ok tt
  verify_all (s ∷ rest) = do verify s; verify_all rest

  -- `_read_unlocked`
  unfoldable pub read : File → Result (List SignedAttestationTrustState)
  unfolding verify_all
  read file = do
    records ← parse_history_records x (some 1000000) (file.lines)
    verify_all records
    ok records

  -- the rest of `append`, by the record of the same version, if there is one
  append_after :
      SignedAttestationTrustState
      → File
      → List SignedAttestationTrustState
      → Option SignedAttestationTrustState
      → Result (SignedAttestationTrustState × File)
  unfolding state_eq write
  append_after state file records (some existing) =
      if state_eq existing state
      then ok (existing, file)
      else err
          (value_error "attestation trust history version already exists with different contents")
  append_after state file records none = do
    validate_attestation_trust_transition x (last records) state
    ok (state, write file state)

  -- `append`: what it returns, and the file that it leaves
  unfoldable pub append :
      SignedAttestationTrustState → File → Result (SignedAttestationTrustState × File)
  unfolding read same_version append_after
  append state file = do
    verify state
    records ← read file
    append_after state file records (same_version state.version records)
