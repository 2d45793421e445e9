-- ===== src/Containment/Json.antt =====
-- Bounded JSON: `_walk_json` and `load_bounded_json` of src/statewake/domain/runtime_containment.py.
-- A dictionary is the list of its items; the number of nodes so far, which the code keeps in a
-- list of one number, is passed along and returned. The decoder is a parameter; what it returns has
-- texts without lone surrogates, and is nested within the recursion limit of the interpreter.
pub mod Bounds
use state_wake.Base.{
  ℕ, suc, ◌+◌, max, String, Bool, Option, none, some, ltb, utf8_length, containment_violation,
  Result, Check, ok, err, ◌>>=◌, ◌>>◌, raise_if,
}
use state_wake.Containment.{RuntimeContainmentLimits, validate_input_size}

mutual
  pub data Json : Type 0 where
    null : Json
    boolean : Bool → Json
    number : String → Json
    text : String → Json
    array : Items → Json
    object : Members → Json

  pub data Items : Type 0 where
    no_items : Items
    item : Json → Items → Items

  pub data Members : Type 0 where
    no_members : Members
    member : String → Json → Members → Members

-- the tests on entry to a node, which is counted
unfoldable pub enter : RuntimeContainmentLimits → ℕ → ℕ → Result ℕ
enter limits depth count = do
  raise_if (ltb limits.max_json_nodes (count + 1))
      (containment_violation "JSON node count exceeds maximum")
  raise_if (ltb limits.max_json_depth depth)
      (containment_violation "JSON nesting depth exceeds maximum")
  ok (count + 1)

-- the test of a string or a key
unfoldable pub check_text : RuntimeContainmentLimits → String → Check
check_text limits s =
    raise_if (ltb limits.max_string_bytes (utf8_length s))
      (containment_violation "JSON string or key exceeds maximum size")

-- _walk_json, and its two loops
unfoldable mutual
  unfolding enter check_text

  pub walk_json : RuntimeContainmentLimits → ℕ → ℕ → Json → Result ℕ
  walk_json limits depth count null = enter limits depth count
  walk_json limits depth count (boolean b) = enter limits depth count
  walk_json limits depth count (number n) = enter limits depth count
  walk_json limits depth count (text s) =
      enter limits depth count >>= λ seen. (check_text limits s >> ok seen)
  walk_json limits depth count (array items) =
      enter limits depth count >>= λ seen. walk_items limits (depth + 1) seen items
  walk_json limits depth count (object members) =
      enter limits depth count >>= λ seen. walk_members limits (depth + 1) seen members

  pub walk_items : RuntimeContainmentLimits → ℕ → ℕ → Items → Result ℕ
  walk_items limits depth count no_items = ok count
  walk_items limits depth count (item child rest) =
      walk_json limits depth count child >>= λ seen. walk_items limits depth seen rest

  pub walk_members : RuntimeContainmentLimits → ℕ → ℕ → Members → Result ℕ
  walk_members limits depth count no_members = ok count
  walk_members limits depth count (member key child rest) =
      check_text limits key
      >> (walk_json limits depth count child >>= λ seen. walk_members limits depth seen rest)

-- load_bounded_json of a text
unfoldable pub load_bounded_json :
    (String → Option Json) → RuntimeContainmentLimits → String → Result Json
load_bounded_json loads limits payload = do
  validate_input_size (utf8_length payload) limits
  value ← elim (loads payload) [
    | some v ↦ ok v
    | none ↦ err (containment_violation "JSON is not valid JSON")
  ]
  _ ← walk_json limits 0 0 value
  ok value
