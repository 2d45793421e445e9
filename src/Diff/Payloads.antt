-- ===== src/Diff/Payloads.antt =====
-- Equality of the payloads that the alignment compares.
use state_wake.Base.{String, ◌≡◌, refl, ap, true, Option, none, some, List, [], ◌∷◌, eq_iff, arith}
use state_wake.Diff.{ActionPayload, option_text_eq, items_eq, payload_eq}

pub option_text_eq-eq : (a b : Option String) → option_text_eq a b ≡ true → a ≡ b
option_text_eq-eq none none h = refl
option_text_eq-eq none (some b) h = cc
option_text_eq-eq (some a) none h = cc
option_text_eq-eq (some a) (some b) h = ap some ((eq_iff a b).0 h)

items_eq-eq : (a b : List (String × String)) → items_eq a b ≡ true → a ≡ b
items_eq-eq [] [] h = refl
items_eq-eq [] (y ∷ b) h = cc
items_eq-eq (x ∷ a) [] h = cc
items_eq-eq ((k, v) ∷ a) ((l, w) ∷ b) h =
    let ek : k ≡ l = (eq_iff k l).0 (ground arith) in
    let ev : v ≡ w = (eq_iff v w).0 (ground arith) in
    let rest = items_eq-eq a b (ground arith) in λ i. (ek i, ev i) ∷ rest i

pub payload_eq-eq : (a b : ActionPayload) → payload_eq a b ≡ true → a ≡ b
unfolding payload_eq
payload_eq-eq a b h =
    let e1 : a.run_id ≡ b.run_id = (eq_iff a.run_id b.run_id).0 (ground arith) in
    let e2 : a.event_type ≡ b.event_type = (eq_iff a.event_type b.event_type).0 (ground arith) in
    let e3 : a.actor ≡ b.actor = (eq_iff a.actor b.actor).0 (ground arith) in
    let e4 = option_text_eq-eq a.name b.name (ground arith) in
    let e5 = option_text_eq-eq a.state_id b.state_id (ground arith) in
    let e6 = option_text_eq-eq a.payload_ref b.payload_ref (ground arith) in
    let e7 = items_eq-eq a.metadata b.metadata (ground arith) in
    λ i. record {
      run_id = e1 i;
      event_type = e2 i;
      actor = e3 i;
      name = e4 i;
      state_id = e5 i;
      payload_ref = e6 i;
      metadata = e7 i;
    }

pub option_text_eq_refl : (a : Option String) → option_text_eq a a ≡ true
option_text_eq_refl none = refl
option_text_eq_refl (some a) = (eq_iff a a).1 refl

items_eq_refl : (a : List (String × String)) → items_eq a a ≡ true
items_eq_refl [] = refl
items_eq_refl ((k, v) ∷ a) = rw ((eq_iff k k).1 refl, (eq_iff v v).1 refl) (items_eq_refl a)

pub payload_eq_refl : (a : ActionPayload) → payload_eq a a ≡ true
unfolding payload_eq
payload_eq_refl a =
    rw
      (
        (eq_iff a.run_id a.run_id).1 refl,
        (eq_iff a.event_type a.event_type).1 refl,
        (eq_iff a.actor a.actor).1 refl,
        option_text_eq_refl a.name,
        option_text_eq_refl a.state_id,
        option_text_eq_refl a.payload_ref,
      )
      (items_eq_refl a.metadata)
