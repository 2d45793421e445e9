-- ===== src/Anchor/Tests.antt =====
-- The store theorems on a subject with one published checkpoint.
use state_wake.Base.{
  ℕ, String, ◌≡◌, ◌≢◌, refl, Option, none, some, [], ◌∷◌, Check, ok, text_functions,
}
use state_wake.Anchor.{TrustCheckpoint, check_checkpoint, ensure_checkpoint_sequence}
use state_wake.Anchor.Store.{
  Directory, find_file, open_all, sort_by_key, latest_of, retrieve, latest, publish,
}
use state_wake.Anchor.Store.Latest.{IsLatest, publish-IsLatest}
use state_wake.Anchor.Store.Poison.{publish_poisons}

abbrev digest_a : String
digest_a = "0123456789abcdef0123456789abcdef0123456789abcdef0123456789abcdef"

abbrev digest : TrustCheckpoint → String
digest c = digest_a

abbrev verify : TrustCheckpoint → Check
verify c = ok tt

abbrev checkpoint : String → String → ℕ → Option String → TrustCheckpoint
checkpoint id issued_at count previous = record {
  checkpoint_id = id;
  subject_id = "s";
  issued_at = issued_at;
  history_tip_digest = digest_a;
  history_record_count = count;
  signing_key_id = "k";
  signing_key_digest = digest_a;
  signature = "sig";
  previous_checkpoint_digest = previous;
  format_version = "1";
}

abbrev oldest : TrustCheckpoint
oldest = checkpoint "a" "2026-01-02T00:00:00Z" 2 none

-- more records
abbrev newer : TrustCheckpoint
newer = checkpoint "b" "2026-01-03T00:00:00Z" 3 (some digest_a)

-- as many records, issued by a clock that is behind
abbrev behind : TrustCheckpoint
behind = checkpoint "b" "2026-01-01T00:00:00Z" 2 (some digest_a)

abbrev before : Directory
before = ("a", oldest) ∷ []

reads : open_all digest verify before ≡ ok (oldest ∷ [])
unfolding open_all check_checkpoint text_functions
reads = refl

newer-check : (check_checkpoint newer ≡ ok tt) × (check_checkpoint behind ≡ ok tt)
unfolding check_checkpoint text_functions
newer-check = (refl, refl)

new_name : find_file before "b" ≡ none
unfolding find_file
new_name = refl

published :
    (publish digest verify before newer ≡ ok (("a", oldest) ∷ ("b", newer) ∷ []))
    × (publish digest verify before behind ≡ ok (("a", oldest) ∷ ("b", behind) ∷ []))
unfolding publish latest retrieve open_all check_checkpoint find_file sort_by_key latest_of
    ensure_checkpoint_sequence text_functions
published = (refl, refl)

publish-IsLatest_example : IsLatest digest verify before newer (("a", oldest) ∷ ("b", newer) ∷ [])
publish-IsLatest_example =
    publish-IsLatest digest verify before (("a", oldest) ∷ ("b", newer) ∷ []) (oldest ∷ []) newer
      reads newer-check.0 new_name refl published.0

publish_poisons_example :
    ((p : Option TrustCheckpoint)
      → latest digest verify (("a", oldest) ∷ ("b", behind) ∷ []) (some "s") ≢ ok p)
    × ((x : TrustCheckpoint) (dir'' : Directory)
        → x.subject_id ≡ "s"
        → find_file (("a", oldest) ∷ ("b", behind) ∷ []) x.checkpoint_id ≡ none
        → publish digest verify (("a", oldest) ∷ ("b", behind) ∷ []) x ≢ ok dir'')
publish_poisons_example =
    publish_poisons digest verify before (("a", oldest) ∷ ("b", behind) ∷ []) (oldest ∷ []) oldest
      behind reads refl refl newer-check.1 new_name refl published.1
