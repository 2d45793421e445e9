-- ===== src/Anchor/Store.antt =====
-- JsonTrustAnchorStore of src/statewake/adapters/trust_anchor.py. The directory is the list of its files in
-- the order in which it is listed: a name without its suffix, and the checkpoint of its payload, which
-- has yet to pass its __post_init__. `verify` is the verifier that the store is given.
pub mod Latest
pub mod Poison
use state_wake.Base.{
  ℕ, suc, String, ◌<>◌, Bool, true, false, not, ◌&&◌, ◌||◌, Option, none, some, List, [], ◌∷◌, ◌++◌,
  length, filter, last, any, ltb, ◌==◌, ◌=ₛ◌, text_le, is_empty, is_some, split_slash, value_error,
  Result, Check, ok, err, ◌>>=◌, ◌>>◌, raise_if, if◌then◌else◌,
}
use state_wake.Anchor.{TrustCheckpoint, check_checkpoint, ensure_checkpoint_sequence}

abbrev pub Directory : Type 0
Directory = List (String × TrustCheckpoint)

-- _path: a name that is no path; `Path(name).name != name` holds when the name has a slash
abbrev pub check_name : String → Check
check_name name = do
  raise_if (is_empty name || name =ₛ "." || name =ₛ "..")
      (value_error "checkpoint_id must not be empty or a path segment.")
  raise_if (not (length (split_slash name) == 1))
      (value_error "checkpoint_id must be a single path-safe segment.")

-- the file of a name
unfoldable pub find_file : Directory → String → Option TrustCheckpoint
find_file [] name = none
find_file ((n, c) ∷ rest) name =
    let other = find_file rest name in if n =ₛ name then some c else other

-- the key of the sort, `(history_record_count, issued_at)`, compared
abbrev pub key_le : TrustCheckpoint → TrustCheckpoint → Bool
key_le a b =
    ltb a.history_record_count b.history_record_count
    || (a.history_record_count == b.history_record_count && text_le a.issued_at b.issued_at)

abbrev pub same_key : TrustCheckpoint → TrustCheckpoint → Bool
same_key a b = a.history_record_count == b.history_record_count && a.issued_at =ₛ b.issued_at

-- `checkpoints.sort(key=...)`, which is stable
unfoldable pub insert_by_key : TrustCheckpoint → List TrustCheckpoint → List TrustCheckpoint
insert_by_key c [] = c ∷ []
insert_by_key c (d ∷ rest) = if key_le c d then c ∷ d ∷ rest else d ∷ insert_by_key c rest

unfoldable pub sort_by_key : List TrustCheckpoint → List TrustCheckpoint
unfolding insert_by_key
sort_by_key [] = []
sort_by_key (c ∷ rest) = insert_by_key c (sort_by_key rest)

-- `subject_id is None or checkpoint.subject_id == subject_id`
abbrev pub of_subject : Option String → List TrustCheckpoint → List TrustCheckpoint
of_subject none = λ cs. cs
of_subject (some s) = filter (λ c. c.subject_id =ₛ s)

-- `len({item.subject_id for item in checkpoints}) > 1`
abbrev pub is_mixed : List TrustCheckpoint → Bool
is_mixed [] = false
is_mixed (c ∷ rest) = any (λ d. not (d.subject_id =ₛ c.subject_id)) rest

module _ (digest : TrustCheckpoint → String) (verify : TrustCheckpoint → Check) where
  -- `retrieve`, once the file is loaded
  unfoldable pub open_file : String → TrustCheckpoint → Result TrustCheckpoint
  open_file name c = do
    check_checkpoint c
    raise_if (not (c.checkpoint_id =ₛ name))
        (value_error "checkpoint ID does not match its storage key.")
    verify c
    ok c

  unfoldable pub retrieve : Directory → String → Result TrustCheckpoint
  unfolding open_file
  retrieve dir name = do
    check_name name
    elim (find_file dir name) [
      | some c ↦ open_file name c
      | none ↦ err (value_error "trust checkpoint is missing")
    ]

  -- the loop over the files
  unfoldable pub open_all : Directory → Result (List TrustCheckpoint)
  unfolding open_file
  open_all [] = ok []
  open_all ((name, c) ∷ rest) = do
    check_name name
    first ← open_file name c
    others ← open_all rest
    ok (first ∷ others)

  -- the loop over neighbouring checkpoints
  unfoldable pub check_chain : List TrustCheckpoint → Check
  unfolding ensure_checkpoint_sequence
  check_chain [] = ok tt
  check_chain (c ∷ []) = ok tt
  check_chain (c ∷ d ∷ rest) = do
    ensure_checkpoint_sequence digest (some c) d
    check_chain (d ∷ rest)

  -- the tests on the sorted checkpoints
  unfoldable pub latest_of : List TrustCheckpoint → Result (Option TrustCheckpoint)
  unfolding check_chain
  latest_of checkpoints = elim (last checkpoints) [
    | none ↦ ok none
    | some newest ↦ do
      raise_if (ltb 1 (length (filter (λ c. same_key c newest) checkpoints)))
          (value_error "independent trust anchor contains ambiguous latest checkpoints.")
      check_chain checkpoints
      ok (some newest)
  ]

  -- _latest
  unfoldable pub latest : Directory → Option String → Result (Option TrustCheckpoint)
  unfolding open_all sort_by_key latest_of
  latest dir subject_id = do
    all ← open_all dir
    raise_if (not (is_some subject_id) && is_mixed all)
        (value_error "latest checkpoint requires a subject when multiple subjects exist.")
    latest_of (sort_by_key (of_subject subject_id all))

  -- `existing.digest() == checkpoint.digest() and existing.signature == checkpoint.signature`
  abbrev same_checkpoint : TrustCheckpoint → TrustCheckpoint → Bool
  same_checkpoint a b = digest a =ₛ digest b && a.signature =ₛ b.signature

  -- publish: the directory after it
  unfoldable pub publish : Directory → TrustCheckpoint → Result Directory
  unfolding retrieve latest
  publish dir c = do
    verify c
    check_name c.checkpoint_id
    elim (find_file dir c.checkpoint_id) [
      | some stored ↦ do
        existing ← retrieve dir c.checkpoint_id
        raise_if (not (same_checkpoint existing c))
            (value_error "checkpoint ID already exists with different content.")
        ok dir
      | none ↦ do
        previous ← latest dir (some c.subject_id)
        ensure_checkpoint_sequence digest previous c
        ok (dir ++ (c.checkpoint_id, c) ∷ [])
    ]
