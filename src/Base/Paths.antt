-- ===== src/Base/Paths.antt =====
-- What `str.split("/")` returns: the parts, none of which has a slash, that the slashes join to the
-- text.
use Prim.Native.Char.{Char, code}
use text.Mathlib.TextEquality.{Char-path}
use text.Mathlib.TextLemmas.{nil-append, cons-append, append-nil, append_assoc}
use Prim.Native.String.{String, [], ◌∷◌, ◌++◌ as ◌<>◌}
use mathlib.Core.List.{List}
use mathlib.Core.Logic.{◌≢◌, inl, inr}
use mathlib.Core.Path.{◌≡◌, refl, sym, ap, ◌∙◌}
use native.Mathlib.Omega.{arith}
use state_wake.Base.Tests.{◌==◌, Bool-cases}
use state_wake.Base.Text.{split_slash, split_slash_from}

-- `"/".join(parts)`
pub join_slash : List String → String
join_slash List.[] = []
join_slash (List.◌∷◌ part List.[]) = part
join_slash (List.◌∷◌ part (List.◌∷◌ next rest)) = part <> ("/" <> join_slash (List.◌∷◌ next rest))

-- no character is a slash
abbrev pub HasNoSlash : String → Type 0
HasNoSlash [] = Unit
HasNoSlash (c ∷ s) = (code c ≢ b'/') × HasNoSlash s

abbrev pub HaveNoSlash : List String → Type 0
HaveNoSlash List.[] = Unit
HaveNoSlash (List.◌∷◌ part rest) = HasNoSlash part × HaveNoSlash rest

abbrev pub IsNonempty : List String → Type 0
IsNonempty List.[] = ⊥
IsNonempty (List.◌∷◌ _ _) = Unit

one-append : (c : Char) (s : String) → (c ∷ []) <> s ≡ c ∷ s
one-append c s = cons-append c [] s ∙ ap (λ t. c ∷ t) (nil-append s)

-- a text, and then a character before more text
append-one : (part : String) (c : Char) (s : String) → (part <> (c ∷ [])) <> s ≡ part <> (c ∷ s)
append-one part c s = append_assoc part (c ∷ []) s ∙ ap (λ t. part <> t) (one-append c s)

HasNoSlash-snoc :
    (s : String) (c : Char) → HasNoSlash s → code c ≢ b'/' → HasNoSlash (s <> (c ∷ []))
HasNoSlash-snoc [] c h n = rw (nil-append (c ∷ [])) (n, tt)
HasNoSlash-snoc (d ∷ s) c (m, h) n = rw (cons-append d s (c ∷ [])) (m, HasNoSlash-snoc s c h n)

-- a part without a slash, at the end and before a slash
split_slash_from-part :
    (part p : String) → HasNoSlash p → split_slash_from part p ≡ List.◌∷◌ (part <> p) List.[]
unfolding split_slash_from
split_slash_from-part part [] h = ap (λ s. List.◌∷◌ s List.[]) (sym (append-nil part))
split_slash_from-part part (c ∷ p) (n, h) = elim (Bool-cases (code c == b'/')) [
  | inl e ↦ absurd (n (ground arith))
  | inr e ↦ rw e (
      split_slash_from-part (part <> (c ∷ [])) p h
      ∙ ap (λ s. List.◌∷◌ s List.[]) (append-one part c p))
]

split_slash_from-next :
    (part p rest : String)
    → HasNoSlash p
    → split_slash_from part (p <> ("/" <> rest)) ≡ List.◌∷◌ (part <> p) (split_slash_from [] rest)
unfolding split_slash_from
split_slash_from-next part [] rest h =
    rw (nil-append ("/" <> rest), one-append "/" rest, append-nil part) refl
split_slash_from-next part (c ∷ p) rest (n, h) = elim (Bool-cases (code c == b'/')) [
  | inl e ↦ absurd (n (ground arith))
  | inr e ↦
      rw (cons-append c p ("/" <> rest), e)
        (split_slash_from-next (part <> (c ∷ [])) p rest h
          ∙ ap (λ s. List.◌∷◌ s (split_slash_from [] rest)) (append-one part c p))
]

-- the parts are those that are joined
pub split_slash-join_slash :
    (parts : List String)
    → IsNonempty parts
    → HaveNoSlash parts
    → split_slash (join_slash parts) ≡ parts
unfolding split_slash join_slash
split_slash-join_slash List.[] n h = absurd n
split_slash-join_slash (List.◌∷◌ part List.[]) n (h, _) =
    split_slash_from-part [] part h ∙ ap (λ s. List.◌∷◌ s List.[]) (nil-append part)
split_slash-join_slash (List.◌∷◌ part (List.◌∷◌ next rest)) n (h, others) =
    split_slash_from-next [] part (join_slash (List.◌∷◌ next rest)) h
    ∙ ap (λ s. List.◌∷◌ s (split_slash_from [] (join_slash (List.◌∷◌ next rest)))) (nil-append part)
    ∙ ap (λ l. List.◌∷◌ part l) (split_slash-join_slash (List.◌∷◌ next rest) tt others)

join_slash-cons :
    (part : String) (parts : List String)
    → IsNonempty parts
    → join_slash (List.◌∷◌ part parts) ≡ part <> ("/" <> join_slash parts)
unfolding join_slash
join_slash-cons part List.[] n = absurd n
join_slash-cons part (List.◌∷◌ next rest) n = refl

split_slash_from-IsNonempty : (part s : String) → IsNonempty (split_slash_from part s)
unfolding split_slash_from
split_slash_from-IsNonempty part [] = tt
split_slash_from-IsNonempty part (c ∷ s) = elim (Bool-cases (code c == b'/')) [
  | inl e ↦ rw e tt
  | inr e ↦ rw e (split_slash_from-IsNonempty (part <> (c ∷ [])) s)
]

split_slash_from-HaveNoSlash :
    (part s : String) → HasNoSlash part → HaveNoSlash (split_slash_from part s)
unfolding split_slash_from
split_slash_from-HaveNoSlash part [] h = (h, tt)
split_slash_from-HaveNoSlash part (c ∷ s) h = elim (Bool-cases (code c == b'/')) [
  | inl e ↦ rw e (h, split_slash_from-HaveNoSlash [] s tt)
  | inr e ↦
      let n : code c ≢ b'/' = λ q. ground arith in
      rw e (split_slash_from-HaveNoSlash (part <> (c ∷ [])) s (HasNoSlash-snoc part c h n))
]

join_slash-one : (part : String) → join_slash (List.◌∷◌ part List.[]) ≡ part
unfolding join_slash
join_slash-one part = refl

-- the slashes join the parts to the text
join_slash-split_slash_from : (part s : String) → join_slash (split_slash_from part s) ≡ part <> s
unfolding split_slash_from
join_slash-split_slash_from part [] = join_slash-one part ∙ sym (append-nil part)
join_slash-split_slash_from part (c ∷ s) = elim (Bool-cases (code c == b'/')) [
  | inl e ↦ rw e (
      join_slash-cons part (split_slash_from [] s) (split_slash_from-IsNonempty [] s)
      ∙ ap (λ t. part <> ("/" <> t)) (join_slash-split_slash_from [] s ∙ nil-append s)
      ∙ ap (λ t. part <> t) (one-append "/" s ∙ ap (λ d. d ∷ s) (Char-path "/" c (ground arith))))
  | inr e ↦ rw e (join_slash-split_slash_from (part <> (c ∷ [])) s ∙ append-one part c s)
]

-- The parts of a text are the one list of texts without slashes that slashes join to it.
pub split_slash-AreParts :
    (s : String)
    → IsNonempty (split_slash s) × HaveNoSlash (split_slash s) × (join_slash (split_slash s) ≡ s)
unfolding split_slash
split_slash-AreParts s = (
  split_slash_from-IsNonempty [] s,
  split_slash_from-HaveNoSlash [] s tt,
  join_slash-split_slash_from [] s ∙ nil-append s,
)
