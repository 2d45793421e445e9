-- ===== src/Keys/Lifecycle.antt =====
-- The lifecycle of a key over any sequence of rotations, retirements and revocations.
use state_wake.Base.{
  ℕ, ◌<◌, ◌≤◌, String, ◌≡◌, ◌≢◌, ◌⊎◌, ◌↔◌, ap, inl, inr, refl, true, false, some, eq_iff, is_blank,
  ok, arith, Bool-cases,
}
use state_wake.Keys.{
  CryptographicProfile, validate_historical_verification, KeyStatus, active, retired, revoked,
  superseded, CryptographicAlgorithm, CryptographicKeyIdentity, KeyLifecycleTransition, check_key,
  check_transition, rotate_key, retire_key, revoke_key, algorithm_eq, status_eq,
}

-- what no lifecycle operation changes
pub record SameIdentity (k k' : CryptographicKeyIdentity) : Type 0 where
  pub key_id : k.key_id ≡ k'.key_id
  pub version : k.version ≡ k'.version
  pub algorithm : k.algorithm ≡ k'.algorithm
  pub public_key_digest : k.public_key_digest ≡ k'.public_key_digest

SameIdentity-trans :
    {a b c : CryptographicKeyIdentity} → SameIdentity a b → SameIdentity b c → SameIdentity a c
SameIdentity-trans p q = record {
  key_id = cc (p.key_id, q.key_id);
  version = cc (p.version, q.version);
  algorithm = cc (p.algorithm, q.algorithm);
  public_key_digest = cc (p.public_key_digest, q.public_key_digest);
}

-- how far a key is in its life
abbrev pub stage : KeyStatus → ℕ
stage active = 0
stage retired = 1
stage superseded = 1
stage revoked = 2

-- one operation on a key that returned
pub data KeyStep (k k' : CryptographicKeyIdentity) : Type 0 where
  rotate :
      (replacement : CryptographicKeyIdentity) (authority rationale : String)
      (t : KeyLifecycleTransition)
      → rotate_key k replacement authority rationale ≡ ok (k', replacement, t)
      → KeyStep k k'
  retire :
      (authority rationale : String) (t : KeyLifecycleTransition)
      → retire_key k authority rationale ≡ ok (k', t)
      → KeyStep k k'
  revoke :
      (authority rationale : String) (t : KeyLifecycleTransition)
      → revoke_key k authority rationale ≡ ok (k', t)
      → KeyStep k k'

pub data KeyHistory (k : CryptographicKeyIdentity) : CryptographicKeyIdentity → Type 0 where
  start : KeyHistory k k
  next : {j j' : CryptographicKeyIdentity} → KeyHistory k j → KeyStep j j' → KeyHistory k j'

-- what a step guarantees
record Kept (k k' : CryptographicKeyIdentity) : Type 0 where
  valid : check_key k' ≡ ok tt
  identity : SameIdentity k k'
  forward : (stage k.status < stage k'.status) ⊎ (k' ≡ k)

rotate-Kept :
    (k k' r new : CryptographicKeyIdentity) (a b : String) (t : KeyLifecycleTransition)
    → check_key k ≡ ok tt
    → rotate_key k r a b ≡ ok (k', new, t)
    → Kept k k'
unfolding rotate_key
rotate-Kept k k' r new a b t v h = record {
  valid = ground arith;
  identity = ground arith;
  forward = ground arith;
}

retire-Kept :
    (k k' : CryptographicKeyIdentity) (a b : String) (t : KeyLifecycleTransition)
    → check_key k ≡ ok tt
    → retire_key k a b ≡ ok (k', t)
    → Kept k k'
unfolding retire_key check_key
retire-Kept k k' a b t v h = record {
  valid = ground arith;
  identity = ground arith;
  forward = ground arith;
}

revoke-Kept :
    (k k' : CryptographicKeyIdentity) (a b : String) (t : KeyLifecycleTransition)
    → check_key k ≡ ok tt
    → revoke_key k a b ≡ ok (k', t)
    → Kept k k'
unfolding revoke_key
revoke-Kept k k' a b t v h = elim (Bool-cases (status_eq k.status revoked)) [
  | inl done ↦
      let same : k' ≡ k = ground arith in
      record {
        valid = rw same v;
        identity =
            rw same (record {
              key_id = refl;
              version = refl;
              algorithm = refl;
              public_key_digest = refl;
            });
        forward = inr same;
      }
  | inr open_key ↦ record { valid = ground arith; identity = ground arith; forward = ground arith }
]

KeyStep-Kept : {k k' : CryptographicKeyIdentity} → check_key k ≡ ok tt → KeyStep k k' → Kept k k'
KeyStep-Kept {k} {k'} v (rotate r a b t h) = rotate-Kept k k' r r a b t v h
KeyStep-Kept {k} {k'} v (retire a b t h) = retire-Kept k k' a b t v h
KeyStep-Kept {k} {k'} v (revoke a b t h) = revoke-Kept k k' a b t v h

-- Over any history of a valid key, the key stays valid, keeps its name, version, algorithm and
-- digest, and its status never moves back: active, then retired or superseded, then revoked.
pub KeyHistory_forward :
    (k k' : CryptographicKeyIdentity)
    → check_key k ≡ ok tt
    → KeyHistory k k'
    → (check_key k' ≡ ok tt) × SameIdentity k k' × (stage k.status ≤ stage k'.status)
KeyHistory_forward k k' v start = (
  v,
  record { key_id = refl; version = refl; algorithm = refl; public_key_digest = refl },
  omega arith,
)
KeyHistory_forward k k' v (next {j} p s) =
    let (vj, same, le) = KeyHistory_forward k j v p in
    let e = KeyStep-Kept vj s in
    (e.valid, SameIdentity-trans same e.identity, ground (arith, e.forward))

algorithm_eq_iff : (a b : CryptographicAlgorithm) → (algorithm_eq a b ≡ true) ↔ (a ≡ b)
algorithm_eq_iff a b = (
  λ h. ground (arith, eq_iff a.identifier b.identifier, eq_iff a.parameters b.parameters),
  λ h. ground (arith, eq_iff a.identifier b.identifier, eq_iff a.parameters b.parameters),
)

-- the old key after its rotation
abbrev pub superseded_by :
    CryptographicKeyIdentity → CryptographicKeyIdentity → CryptographicKeyIdentity
superseded_by k r = record {
  key_id = k.key_id;
  version = k.version;
  algorithm = k.algorithm;
  public_key_digest = k.public_key_digest;
  status = superseded;
  successor_key_id = some r.key_id;
}

-- the record of a rotation
abbrev pub rotation_of :
    CryptographicKeyIdentity → CryptographicKeyIdentity → String → String → KeyLifecycleTransition
rotation_of k r authority rationale = record {
  from_key_id = k.key_id;
  to_key_id = r.key_id;
  event = superseded;
  rationale = rationale;
  authority = authority;
}

-- A rotation of a valid key by a valid key returns exactly when both are active, the names
-- differ, the algorithms agree, the version grows, and an authority and a rationale are given.
-- What it returns is the old key with every field kept but its status, now superseded, and its
-- successor, now the new key; the new key as it is; and the record of the superseding of the one
-- by the other, with the rationale and the authority.
pub rotate_key_iff :
    (k r : CryptographicKeyIdentity) (authority rationale : String)
    → check_key k ≡ ok tt
    → check_key r ≡ ok tt
    → (((result : CryptographicKeyIdentity × CryptographicKeyIdentity × KeyLifecycleTransition)
          × (rotate_key k r authority rationale ≡ ok result))
        ↔ ((k.status ≡ active)
            × (r.status ≡ active)
            × (r.key_id ≢ k.key_id)
            × (r.algorithm ≡ k.algorithm)
            × (k.version < r.version)
            × (is_blank rationale ≡ false)
            × (is_blank authority ≡ false)))
      × ((result : CryptographicKeyIdentity × CryptographicKeyIdentity × KeyLifecycleTransition)
          → rotate_key k r authority rationale ≡ ok result
          → result ≡ (superseded_by k r, r, rotation_of k r authority rationale))
unfolding rotate_key check_key check_transition
rotate_key_iff k r authority rationale vk vr = (
  (
    λ p. (
      ground (arith, p.1),
      ground (arith, p.1),
      λ same. ground (arith, p.1, eq_iff r.key_id k.key_id),
      ground (arith, p.1, algorithm_eq_iff r.algorithm k.algorithm),
      ground (arith, p.1),
      ground (arith, p.1),
      ground (arith, p.1),
    ),
    λ q. (
      (superseded_by k r, r, rotation_of k r authority rationale),
      ground (arith, q, eq_iff r.key_id k.key_id, algorithm_eq_iff r.algorithm k.algorithm),
    ),
  ),
  λ result h. ground (arith, h),
)

-- No step leaves a key active.
step_ends :
    {k k' : CryptographicKeyIdentity}
    → check_key k ≡ ok tt
    → KeyStep k k'
    → status_eq k'.status active ≡ false
unfolding rotate_key retire_key revoke_key
step_ends {k} {k'} v (rotate r a b t h) = ground arith
step_ends {k} {k'} v (retire a b t h) = ground arith
step_ends {k} {k'} v (revoke a b t h) = ground arith

-- Once a valid key has been rotated, retired or revoked, historical verification accepts it for
-- exactly the profiles that name its signature algorithm.
pub historical_after_step :
    (k k' : CryptographicKeyIdentity) (p : CryptographicProfile)
    → check_key k ≡ ok tt
    → KeyStep k k'
    → (validate_historical_verification k' p ≡ ok tt)
      ↔ (k.algorithm.identifier ≡ p.signature_algorithm.identifier)
unfolding validate_historical_verification
historical_after_step k k' p v s =
    let e = KeyStep-Kept v s in
    let ended = step_ends v s in
    let name = ap (λ (a : CryptographicAlgorithm). a.identifier) e.identity.algorithm in
    (
      λ h. ground (arith, eq_iff k'.algorithm.identifier p.signature_algorithm.identifier),
      λ same. ground (arith, eq_iff k'.algorithm.identifier p.signature_algorithm.identifier),
    )
