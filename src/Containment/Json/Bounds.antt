-- ===== src/Containment/Json/Bounds.antt =====
-- The walk accepts exactly the documents within the limits, and counts their nodes.
use state_wake.Base.{
  ◌≢◌, ℕ, ◌+◌, ◌≤◌, max, String, ◌≡◌, refl, ap, ◌∙◌, subst, ◌↔◌, false, Option, none, some, ltb,
  utf8_length, Result, ok, err, ◌>>=◌, ◌>>◌, >>=-eq-ok, >>-eq-ok, raise_if, raise_if-eq-ok,
  containment_violation, arith,
}
use state_wake.Containment.{RuntimeContainmentLimits, validate_input_size}
use state_wake.Containment.Json.{
  walk_members, walk_items, Json, null, boolean, number, text, array, object, Items, no_items, item,
  Members, no_members, member, enter, check_text, walk_json, load_bounded_json,
}

-- the number of nodes
unfoldable mutual
  pub nodes : Json → ℕ
  nodes null = 1
  nodes (boolean b) = 1
  nodes (number n) = 1
  nodes (text s) = 1
  nodes (array items) = 1 + nodes_items items
  nodes (object members) = 1 + nodes_members members

  nodes_items : Items → ℕ
  nodes_items no_items = 0
  nodes_items (item child rest) = nodes child + nodes_items rest

  nodes_members : Members → ℕ
  nodes_members no_members = 0
  nodes_members (member key child rest) = nodes child + nodes_members rest

-- the number of levels below the top
unfoldable mutual
  pub height : Json → ℕ
  height null = 0
  height (boolean b) = 0
  height (number n) = 0
  height (text s) = 0
  height (array items) = height_items items
  height (object members) = height_members members

  height_items : Items → ℕ
  height_items no_items = 0
  height_items (item child rest) = max (1 + height child) (height_items rest)

  height_members : Members → ℕ
  height_members no_members = 0
  height_members (member key child rest) = max (1 + height child) (height_members rest)

-- the size of the longest string or key
unfoldable mutual
  pub longest : Json → ℕ
  longest null = 0
  longest (boolean b) = 0
  longest (number n) = 0
  longest (text s) = utf8_length s
  longest (array items) = longest_items items
  longest (object members) = longest_members members

  longest_items : Items → ℕ
  longest_items no_items = 0
  longest_items (item child rest) = max (longest child) (longest_items rest)

  longest_members : Members → ℕ
  longest_members no_members = 0
  longest_members (member key child rest) =
      max (utf8_length key) (max (longest child) (longest_members rest))

module _ (l : RuntimeContainmentLimits) where
  -- what is left of the limits at a depth, after so many nodes, is enough
  abbrev Fits : ℕ → ℕ → ℕ → ℕ → ℕ → Type 0
  Fits d c n h w =
      (c + n ≤ l.max_json_nodes) × (d + h ≤ l.max_json_depth) × (w ≤ l.max_string_bytes)

  enter-ok :
      (d c n : ℕ)
      → enter l d c ≡ ok n
      → (n ≡ c + 1) × (c + 1 ≤ l.max_json_nodes) × (d ≤ l.max_json_depth)
  unfolding enter
  enter-ok d c n h =
      let (a, rest) = >>-eq-ok (raise_if (ltb l.max_json_nodes (c + 1)) _) _ h in
      let (b, e) = >>-eq-ok (raise_if (ltb l.max_json_depth d) _) _ rest in
      (cc, ground (arith, raise_if-eq-ok _ _ a), ground (arith, raise_if-eq-ok _ _ b))

  enter-Fits :
      (d c : ℕ) → c + 1 ≤ l.max_json_nodes → d ≤ l.max_json_depth → enter l d c ≡ ok (c + 1)
  unfolding enter
  enter-Fits d c h k =
      let a : ltb l.max_json_nodes (c + 1) ≡ false = ground arith in
      let b : ltb l.max_json_depth d ≡ false = ground arith in rw (a, b) refl

  check_text-ok : (s : String) → check_text l s ≡ ok tt → utf8_length s ≤ l.max_string_bytes
  unfolding check_text
  check_text-ok s h =
      let a = raise_if-eq-ok (ltb l.max_string_bytes (utf8_length s)) _ h in ground arith

  check_text-Fits : (s : String) → utf8_length s ≤ l.max_string_bytes → check_text l s ≡ ok tt
  unfolding check_text
  check_text-Fits s h =
      let a : ltb l.max_string_bytes (utf8_length s) ≡ false = ground arith in rw a refl

  mutual
    unfolding walk_json nodes height longest

    walk-Fits :
        (d c n : ℕ) (v : Json)
        → walk_json l d c v ≡ ok n
        → (n ≡ c + nodes v) × Fits d c (nodes v) (height v) (longest v)
    walk-Fits d c n null h = let (a, b, e) = enter-ok d c n h in (a, (b, omega arith, omega arith))
    walk-Fits d c n (boolean x) h =
        let (a, b, e) = enter-ok d c n h in (a, (b, omega arith, omega arith))
    walk-Fits d c n (number x) h =
        let (a, b, e) = enter-ok d c n h in (a, (b, omega arith, omega arith))
    walk-Fits d c n (text s) h =
        let (seen, first, rest) = >>=-eq-ok (enter l d c) (λ seen. (check_text l s >> ok seen)) h in
        let (a, b, e) = enter-ok d c seen first in
        let (t, same) = >>-eq-ok (check_text l s) (ok seen) rest in
        let n_seen : seen ≡ n = cc in (omega arith, (b, omega arith, check_text-ok s t))
    walk-Fits d c n (array items) h =
        let (seen, first, rest) =
          >>=-eq-ok (enter l d c) (λ seen. walk_items l (d + 1) seen items) h in
        let (a, b, e) = enter-ok d c seen first in
        let (p, (q, r, t)) = walk_items-Fits d seen n items e (omega arith) rest in
        (omega arith, (omega arith, r, t))
    walk-Fits d c n (object members) h =
        let (seen, first, rest) =
          >>=-eq-ok (enter l d c) (λ seen. walk_members l (d + 1) seen members) h in
        let (a, b, e) = enter-ok d c seen first in
        let (p, (q, r, t)) = walk_members-Fits d seen n members e (omega arith) rest in
        (omega arith, (omega arith, r, t))

    walk_items-Fits :
        (d c n : ℕ) (items : Items)
        → d ≤ l.max_json_depth
        → c ≤ l.max_json_nodes
        → walk_items l (d + 1) c items ≡ ok n
        → (n ≡ c + nodes_items items)
          × Fits d c (nodes_items items) (height_items items) (longest_items items)
    walk_items-Fits d c n no_items hd hc h =
        let same : c ≡ n = cc in (omega arith, (omega arith, omega arith, omega arith))
    walk_items-Fits d c n (item child rest) hd hc h =
        let (seen, first, later) =
          >>=-eq-ok (walk_json l (d + 1) c child) (λ seen. walk_items l (d + 1) seen rest) h in
        let (a, (b, e, f)) = walk-Fits (d + 1) c seen child first in
        let (p, (q, r, t)) = walk_items-Fits d seen n rest hd (omega arith) later in
        (omega arith, (omega arith, omega arith, omega arith))

    walk_members-Fits :
        (d c n : ℕ) (members : Members)
        → d ≤ l.max_json_depth
        → c ≤ l.max_json_nodes
        → walk_members l (d + 1) c members ≡ ok n
        → (n ≡ c + nodes_members members)
          × Fits d c (nodes_members members) (height_members members) (longest_members members)
    walk_members-Fits d c n no_members hd hc h =
        let same : c ≡ n = cc in (omega arith, (omega arith, omega arith, omega arith))
    walk_members-Fits d c n (member key child rest) hd hc h =
        let (k, h') = >>-eq-ok (check_text l key) _ h in
        let (seen, first, later) =
          >>=-eq-ok (walk_json l (d + 1) c child) (λ seen. walk_members l (d + 1) seen rest) h' in
        let (a, (b, e, f)) = walk-Fits (d + 1) c seen child first in
        let (p, (q, r, t)) = walk_members-Fits d seen n rest hd (omega arith) later in
        let u = check_text-ok key k in (omega arith, (omega arith, omega arith, omega arith))

  mutual
    unfolding walk_json nodes height longest

    Fits-walk :
        (d c : ℕ) (v : Json)
        → Fits d c (nodes v) (height v) (longest v)
        → walk_json l d c v ≡ ok (c + nodes v)
    Fits-walk d c null (a, b, e) = enter-Fits d c a (omega arith)
    Fits-walk d c (boolean x) (a, b, e) = enter-Fits d c a (omega arith)
    Fits-walk d c (number x) (a, b, e) = enter-Fits d c a (omega arith)
    Fits-walk d c (text s) (a, b, e) = rw (enter-Fits d c a (omega arith), check_text-Fits s e) refl
    Fits-walk d c (array items) (a, b, e) =
        let own = enter-Fits d c (omega arith) (omega arith) in
        let rest = Fits-walk_items d (c + 1) items (omega arith, b, e) in
        let same : c + 1 + nodes_items items ≡ c + (1 + nodes_items items) = omega arith in
        rw own (rest ∙ ap ok same)
    Fits-walk d c (object members) (a, b, e) =
        let own = enter-Fits d c (omega arith) (omega arith) in
        let rest = Fits-walk_members d (c + 1) members (omega arith, b, e) in
        let same : c + 1 + nodes_members members ≡ c + (1 + nodes_members members) = omega arith in
        rw own (rest ∙ ap ok same)

    Fits-walk_items :
        (d c : ℕ) (items : Items)
        → Fits d c (nodes_items items) (height_items items) (longest_items items)
        → walk_items l (d + 1) c items ≡ ok (c + nodes_items items)
    Fits-walk_items d c no_items f = let same : c ≡ c + 0 = omega arith in ap ok same
    Fits-walk_items d c (item child rest) (a, b, e) =
        let own = Fits-walk (d + 1) c child (omega arith, omega arith, omega arith) in
        let later =
          Fits-walk_items d (c + nodes child) rest (omega arith, omega arith, omega arith) in
        let same : c + nodes child + nodes_items rest ≡ c + (nodes child + nodes_items rest) =
          omega arith in
        rw own (later ∙ ap ok same)

    Fits-walk_members :
        (d c : ℕ) (members : Members)
        → Fits d c (nodes_members members) (height_members members) (longest_members members)
        → walk_members l (d + 1) c members ≡ ok (c + nodes_members members)
    Fits-walk_members d c no_members f = let same : c ≡ c + 0 = omega arith in ap ok same
    Fits-walk_members d c (member key child rest) (a, b, e) =
        let k = check_text-Fits key (omega arith) in
        let own = Fits-walk (d + 1) c child (omega arith, omega arith, omega arith) in
        let later =
          Fits-walk_members d (c + nodes child) rest (omega arith, omega arith, omega arith) in
        let same : c + nodes child + nodes_members rest ≡ c + (nodes child + nodes_members rest) =
          omega arith in
        rw (k, own) (later ∙ ap ok same)

-- what the decoder leaves
abbrev decode : Option Json → Result Json
decode d = elim d [ some v ↦ ok v | none ↦ err (containment_violation "JSON is not valid JSON") ]

-- what the limits allow: the size of the payload, and the nodes, the levels and the texts of its value
abbrev pub IsWithinLimits : RuntimeContainmentLimits → String → Json → Type 0
IsWithinLimits l payload v =
    (utf8_length payload ≤ l.max_input_bytes)
    × (nodes v ≤ l.max_json_nodes)
    × (height v ≤ l.max_json_depth)
    × (longest v ≤ l.max_string_bytes)

-- A payload that the decoder reads as a value is loaded, as that value, exactly when the payload is
-- within the input limit, the value has no more nodes and no more levels than allowed, and none of its
-- strings and keys is longer than allowed. A payload that the decoder refuses is not loaded.
pub load_bounded_json_iff :
    (loads : String → Option Json) (l : RuntimeContainmentLimits) (payload : String)
    → ((v : Json)
        → loads payload ≡ some v
        → (load_bounded_json loads l payload ≡ ok v) ↔ IsWithinLimits l payload v)
      × (loads payload ≡ none → (v : Json) → load_bounded_json loads l payload ≢ ok v)
unfolding load_bounded_json validate_input_size
load_bounded_json_iff loads l payload = (
  λ v decoded. (
    λ h.
        let (size, h1) = >>-eq-ok (raise_if (ltb l.max_input_bytes (utf8_length payload)) _) _ h in
        let small = raise_if-eq-ok _ _ size in
        let h2 =
          subst (λ z. (decode z >>= λ value. (walk_json l 0 0 value >>= λ _. ok value)) ≡ ok v)
            decoded h1 in
        let (n, walked, same) = >>=-eq-ok (walk_json l 0 0 v) (λ _. ok v) h2 in
        let (count, (a, b, c)) = walk-Fits l 0 0 n v walked in
        (ground arith, omega arith, omega arith, c),
    λ (a, b, c, e).
        let small : ltb l.max_input_bytes (utf8_length payload) ≡ false = ground arith in
        let walked = Fits-walk l 0 0 v (omega arith, omega arith, e) in
        rw (small, decoded, walked) refl,
  ),
  λ refused v h.
      let (size, h1) = >>-eq-ok (raise_if (ltb l.max_input_bytes (utf8_length payload)) _) _ h in
      let h2 =
        subst (λ z. (decode z >>= λ value. (walk_json l 0 0 value >>= λ _. ok value)) ≡ ok v)
          refused h1 in
      cc,
)
