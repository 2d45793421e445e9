-- ===== src/Containment/Archive.antt =====
-- The check of an archive accepts exactly the safe archives, whose running total is the sum.
use state_wake.Base.{
  IsNonempty, HaveNoSlash, join_slash, split_slash-AreParts, split_slash-join_slash, subst, sym, ap,
  ◌∙◌, StartsWithCode, starts_with-StartsWithCode, ◌*◌, ◌/◌, ◌%◌, max, ◌≢◌, String, elem,
  split_slash, ◌=ₛ◌, eq_iff, Bool-cases, inl, inr, ℕ, ◌+◌, ◌≤◌, ◌≡◌, refl, ◌↔◌, false, List, [],
  ◌∷◌, length, ltb, ok, >>-eq-ok, raise_if, raise_if-eq-ok, arith,
}
use state_wake.Containment.{
  Fraction, RuntimeContainmentLimits, ZipInfo, is_unsafe_path, is_symlink, is_overcompressed,
  validate_archive_metadata, check_members, validate_archive_envelope,
}

-- the sum of the sizes of the members
abbrev pub total_size : List ZipInfo → ℕ
total_size [] = 0
total_size (info ∷ rest) = info.file_size + total_size rest

-- the text is none of the parts
abbrev pub IsNone : String → List String → Type 0
IsNone x [] = Unit
IsNone x (part ∷ rest) = (part ≢ x) × IsNone x rest

-- The path does not start with a slash, and none of the parts that slashes join to it, which have no
-- slash themselves, leads up.
abbrev pub StaysBelow : String → Type 0
StaysBelow name =
    (¬ StartsWithCode b'/' name)
    × ((parts : List String) × IsNonempty parts
        × HaveNoSlash parts
        × (join_slash parts ≡ name)
        × IsNone ".." parts)

-- the four high bits of the attributes, which hold the type of a Unix file, are not those of a link
abbrev pub IsNoLink : ZipInfo → Type 0
IsNoLink info = info.external_attr / 268435456 % 16 ≢ 10

elem_iff : (x : String) (parts : List String) → (elem x parts ≡ false) ↔ IsNone x parts
elem_iff x [] = (λ h. tt, λ h. refl)
elem_iff x (part ∷ rest) =
    let (to, from) = elem_iff x rest in
    elim (Bool-cases (part =ₛ x)) [
      | inl e ↦ rw e (λ h. cc, λ (n, others). absurd (n ((eq_iff part x).0 e)))
      | inr n ↦ rw n (
        λ h. (λ same. absurd (cc ((eq_iff part x).1 same, n)), to h),
        λ (other, others). from others,
      )
    ]

unsafe_iff : (name : String) → (is_unsafe_path name ≡ false) ↔ StaysBelow name
unsafe_iff name =
    let starts = starts_with-StartsWithCode name in
    let (some_part, slash_free, joined) = split_slash-AreParts name in
    (
      λ h. (
        starts.0 (ground arith),
        (
          split_slash name,
          some_part,
          slash_free,
          joined,
          (elem_iff ".." (split_slash name)).0 (ground arith),
        ),
      ),
      λ (a, (parts, n, free, same, b)).
          let split : split_slash name ≡ parts =
            ap split_slash (sym same) ∙ split_slash-join_slash parts n free in
          let relative = starts.1 a in
          let inside : elem ".." (split_slash name) ≡ false =
            subst (λ l. elem ".." l ≡ false) (sym split) ((elem_iff ".." parts).1 b) in
          ground arith,
    )

symlink_iff : (info : ZipInfo) → (is_symlink info ≡ false) ↔ IsNoLink info
symlink_iff info = (λ h e. ground arith, λ n. ground arith)

module _ (divide : ℕ → ℕ → Fraction) (limits : RuntimeContainmentLimits) where
  -- the ratio that Python's division gives is at most the limit
  abbrev pub IsWithinRatio : ZipInfo → Type 0
  IsWithinRatio info =
      (divide info.file_size (max info.compress_size 1)).numerator
        * limits.max_archive_compression_ratio.denominator
      ≤ limits.max_archive_compression_ratio.numerator
        * (divide info.file_size (max info.compress_size 1)).denominator

  -- every member has a path that stays below its root, is within the ratio and is no symbolic link
  abbrev pub AreSafe : List ZipInfo → Type 0
  AreSafe [] = Unit
  AreSafe (info ∷ rest) =
      StaysBelow info.filename × IsWithinRatio info × IsNoLink info × AreSafe rest

  overcompressed_iff :
      (info : ZipInfo) → (is_overcompressed divide limits info ≡ false) ↔ IsWithinRatio info
  overcompressed_iff info = (λ h. ground arith, λ le. ground arith)

  metadata_iff :
      (info : ZipInfo)
      → (validate_archive_metadata divide limits info ≡ ok tt) ↔ (
          StaysBelow info.filename
          × (info.file_size ≤ limits.max_archive_uncompressed_bytes)
          × IsWithinRatio info
          × IsNoLink info)
  unfolding validate_archive_metadata
  metadata_iff info = (
    λ h.
        let (a, h1) = >>-eq-ok (raise_if (is_unsafe_path info.filename) _) _ h in
        let (b, h2) =
          >>-eq-ok (raise_if (ltb limits.max_archive_uncompressed_bytes info.file_size) _) _ h1 in
        let (c, e) = >>-eq-ok (raise_if (is_overcompressed divide limits info) _) _ h2 in
        let small = raise_if-eq-ok _ _ b in
        (
          (unsafe_iff info.filename).0 (raise_if-eq-ok _ _ a),
          ground arith,
          (overcompressed_iff info).0 (raise_if-eq-ok _ _ c),
          (symlink_iff info).0 (raise_if-eq-ok _ _ e),
        ),
    λ (a, b, c, e).
        let small : ltb limits.max_archive_uncompressed_bytes info.file_size ≡ false =
          ground arith in
        rw
          (
            (unsafe_iff info.filename).1 a,
            small,
            (overcompressed_iff info).1 c,
            (symlink_iff info).1 e,
          )
          refl,
  )

  check_members_iff :
      (total : ℕ) (infos : List ZipInfo)
      → total ≤ limits.max_archive_uncompressed_bytes
      → (check_members divide limits total infos ≡ ok tt)
        ↔ (AreSafe infos × (total + total_size infos ≤ limits.max_archive_uncompressed_bytes))
  unfolding check_members
  check_members_iff total [] le = (λ h. (tt, omega arith), λ p. refl)
  check_members_iff total (info ∷ rest) le = (
    λ h.
        let (m, h1) = >>-eq-ok (validate_archive_metadata divide limits info) _ h in
        let (t, h2) =
          >>-eq-ok (raise_if (ltb limits.max_archive_uncompressed_bytes (total + info.file_size)) _)
            _ h1 in
        let (a, b, c, e) = (metadata_iff info).0 m in
        let small = raise_if-eq-ok _ _ t in
        let (s, n) = (check_members_iff (total + info.file_size) rest (ground arith)).0 h2 in
        ((a, c, e, s), omega arith),
    λ ((a, c, e, s), n).
        let m = (metadata_iff info).1 (a, omega arith, c, e) in
        let small : ltb limits.max_archive_uncompressed_bytes (total + info.file_size) ≡ false =
          ground arith in
        let later =
          (check_members_iff (total + info.file_size) rest (omega arith)).1 (s, omega arith) in
        rw (m, small) later,
  )

  -- An archive is accepted exactly when it has no more members than allowed; every member has a path
  -- that does not start with a slash and is joined by slashes from parts without a slash of which
  -- none is "..", is not of the type of a symbolic link, and has a ratio of size to compressed size,
  -- one byte if that is zero, of at most the limit; and the sizes of all members together are within
  -- the limit on uncompressed bytes.
  pub validate_archive_envelope_iff :
      (infos : List ZipInfo)
      → (validate_archive_envelope divide limits infos ≡ ok tt) ↔ (
          (length infos ≤ limits.max_archive_members)
          × AreSafe infos
          × (total_size infos ≤ limits.max_archive_uncompressed_bytes))
  unfolding validate_archive_envelope
  validate_archive_envelope_iff infos =
      let members = check_members_iff 0 infos (omega arith) in
      (
        λ h.
            let (n, rest) =
              >>-eq-ok (raise_if (ltb limits.max_archive_members (length infos)) _) _ h in
            let few = raise_if-eq-ok _ _ n in
            let (s, t) = members.0 rest in (ground arith, s, omega arith),
        λ (n, s, t).
            let few : ltb limits.max_archive_members (length infos) ≡ false = ground arith in
            rw few (members.1 (s, omega arith)),
      )
