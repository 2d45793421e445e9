-- ===== src/Containment/Tests.antt =====
-- The containment theorems at a small document and a small archive.
use state_wake.Base.{
  ℕ, ◌≤◌, String, ◌≡◌, ◌≢◌, ◌↔◌, refl, Option, none, some, List, [], ◌∷◌, length, ok, utf8_length,
  if◌then◌else◌, ◌=ₛ◌, text_functions,
}
use state_wake.Containment.{
  Fraction, RuntimeContainmentLimits, ZipInfo, check_members, validate_archive_envelope,
}
use state_wake.Containment.Archive.{AreSafe, total_size, validate_archive_envelope_iff}
use state_wake.Containment.Json.{
  Json, text, array, object, no_items, item, no_members, member, walk_json, load_bounded_json,
}
use state_wake.Containment.Json.Bounds.{IsWithinLimits, load_bounded_json_iff}

abbrev limits : RuntimeContainmentLimits
limits = record {
  max_input_bytes = 100;
  max_archive_members = 2;
  max_archive_uncompressed_bytes = 50;
  max_archive_compression_ratio = record { numerator = 100; denominator = 1 };
  max_json_depth = 2;
  max_json_nodes = 4;
  max_string_bytes = 3;
  max_graph_nodes = 10;
  max_verification_seconds = record { numerator = 30; denominator = 1 };
  max_concurrency = 4;
  max_temporary_bytes = 50;
}

abbrev document : Json
document = object (member "k" (array (item (text "abc") no_items)) no_members)

-- a decoder that reads one payload
abbrev loads : String → Option Json
loads payload = if payload =ₛ "{}" then some document else none

walk_document : walk_json limits 0 0 document ≡ ok 3
unfolding walk_json utf8_length
walk_document = refl

load_bounded_json_iff_example :
    ((v : Json)
      → loads "{}" ≡ some v
      → (load_bounded_json loads limits "{}" ≡ ok v) ↔ IsWithinLimits limits "{}" v)
    × (loads "{}" ≡ none → (v : Json) → load_bounded_json loads limits "{}" ≢ ok v)
load_bounded_json_iff_example = load_bounded_json_iff loads limits "{}"

abbrev archive : List ZipInfo
archive =
    (record { filename = "a/b.json"; file_size = 20; compress_size = 10; external_attr = 0 })
    ∷ (record { filename = "c.json"; file_size = 30; compress_size = 0; external_attr = 0 })
    ∷ []

-- the exact quotient
abbrev divide : ℕ → ℕ → Fraction
divide a b = record { numerator = a; denominator = b }

validate_archive_envelope_iff_example :
    (validate_archive_envelope divide limits archive ≡ ok tt)
    ↔ ((length archive ≤ 2) × AreSafe divide limits archive × (total_size archive ≤ 50))
validate_archive_envelope_iff_example = validate_archive_envelope_iff divide limits archive

accepted : validate_archive_envelope divide limits archive ≡ ok tt
unfolding validate_archive_envelope check_members text_functions
accepted = refl
