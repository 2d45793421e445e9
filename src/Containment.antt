-- ===== src/Containment.antt =====
-- Limits on untrusted input: src/statewake/domain/runtime_containment.py. A number is a natural, so no
-- limit and no size is negative; a float is a fraction, and `divide` is Python's division of two
-- integers. A message names the limit, not its value or the path. The reading of an address
-- (validate_reference) and of the clock (VerificationDeadline) is not modelled.
pub mod Json
pub mod Archive
mod Tests
use state_wake.Base.{
  ◌<>◌, ℕ, ◌+◌, ◌*◌, ◌/◌, ◌%◌, max, String, Bool, true, false, not, ◌&&◌, ◌||◌, List, [], ◌∷◌,
  length, any, elem, ltb, leb, ◌==◌, starts_with, split_slash, value_error, containment_violation,
  Check, ok, ◌>>=◌, ◌>>◌, raise_if,
}

-- a float that is not negative
pub record Fraction : Type 0 where
  pub numerator : ℕ
  pub denominator : ℕ

-- `a < b` on floats
abbrev pub is_below : Fraction → Fraction → Bool
is_below a b = ltb (a.numerator * b.denominator) (b.numerator * a.denominator)

pub record RuntimeContainmentLimits : Type 0 where
  pub max_input_bytes : ℕ
  pub max_archive_members : ℕ
  pub max_archive_uncompressed_bytes : ℕ
  pub max_archive_compression_ratio : Fraction
  pub max_json_depth : ℕ
  pub max_json_nodes : ℕ
  pub max_string_bytes : ℕ
  pub max_graph_nodes : ℕ
  pub max_verification_seconds : Fraction
  pub max_concurrency : ℕ
  pub max_temporary_bytes : ℕ

-- the loop over the integer fields
check_positive : List (String × ℕ) → Check
check_positive [] = ok tt
check_positive ((name, value) ∷ rest) = do
  raise_if (leb value 0) (value_error (name <> " must be positive"))
  check_positive rest

-- RuntimeContainmentLimits.__post_init__
pub check_limits : RuntimeContainmentLimits → Check
unfolding check_positive
check_limits l = do
  check_positive (
      ("max_input_bytes", l.max_input_bytes)
      ∷ ("max_archive_members", l.max_archive_members)
      ∷ ("max_archive_uncompressed_bytes", l.max_archive_uncompressed_bytes)
      ∷ ("max_json_depth", l.max_json_depth)
      ∷ ("max_json_nodes", l.max_json_nodes)
      ∷ ("max_string_bytes", l.max_string_bytes)
      ∷ ("max_graph_nodes", l.max_graph_nodes)
      ∷ ("max_concurrency", l.max_concurrency)
      ∷ ("max_temporary_bytes", l.max_temporary_bytes)
      ∷ [])
  raise_if (is_below l.max_archive_compression_ratio (record { numerator = 1; denominator = 1 }))
      (value_error "max_archive_compression_ratio must be at least 1")
  raise_if (l.max_verification_seconds.numerator == 0)
      (value_error "max_verification_seconds must be positive")

-- a size is not negative
unfoldable pub validate_input_size : ℕ → RuntimeContainmentLimits → Check
validate_input_size size limits =
    raise_if (ltb limits.max_input_bytes size)
      (containment_violation "input exceeds maximum input size")

-- ZipInfo, as far as the code reads it
pub record ZipInfo : Type 0 where
  pub filename : String
  pub file_size : ℕ
  pub compress_size : ℕ
  pub external_attr : ℕ

-- `PurePosixPath(name).is_absolute() or ".." in PurePosixPath(name).parts`
abbrev pub is_unsafe_path : String → Bool
is_unsafe_path name = starts_with name "/" || elem ".." (split_slash name)

-- `(info.external_attr >> 16) & 0xFFFF`
abbrev pub external_mode : ZipInfo → ℕ
external_mode info = info.external_attr / 65536 % 65536

-- `external_mode and (external_mode & 0o170000) == 0o120000`: the file type is in the four high bits
abbrev pub is_symlink : ZipInfo → Bool
is_symlink info = not (external_mode info == 0) && external_mode info / 4096 == 10

module _ (divide : ℕ → ℕ → Fraction) (limits : RuntimeContainmentLimits) where
  -- the compression ratio is over its limit
  abbrev pub is_overcompressed : ZipInfo → Bool
  is_overcompressed info =
      is_below limits.max_archive_compression_ratio
        (divide info.file_size (max info.compress_size 1))

  unfoldable pub validate_archive_metadata : ZipInfo → Check
  validate_archive_metadata info = do
    raise_if (is_unsafe_path info.filename) (containment_violation "unsafe archive path")
    raise_if (ltb limits.max_archive_uncompressed_bytes info.file_size)
        (containment_violation "archive member exceeds maximum size")
    raise_if (is_overcompressed info)
        (containment_violation "archive compression ratio exceeds containment limit")
    raise_if (is_symlink info) (containment_violation "archive symlinks are not permitted")

  -- the loop over the members, from the size so far
  unfoldable pub check_members : ℕ → List ZipInfo → Check
  unfolding validate_archive_metadata
  check_members total [] = ok tt
  check_members total (info ∷ rest) = do
    validate_archive_metadata info
    raise_if (ltb limits.max_archive_uncompressed_bytes (total + info.file_size))
        (containment_violation "archive aggregate uncompressed size exceeds containment limit")
    check_members (total + info.file_size) rest

  unfoldable pub validate_archive_envelope : List ZipInfo → Check
  validate_archive_envelope infos = do
    raise_if (ltb limits.max_archive_members (length infos))
        (containment_violation "archive contains too many members")
    check_members 0 infos
