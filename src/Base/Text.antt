-- ===== src/Base/Text.antt =====
-- Python's `str` as the library's text: equality, `strip`, `startswith`, and the digest format.
use Prim.Native.Nat.{ℕ, suc, ◌+◌, Ordering}
use Prim.Native.Char.{code}
use Prim.Native.String.{String, [], ◌∷◌, ◌++◌ as ◌<>◌}
use mathlib.Core.Bool.{Bool, true, false, ◌&&◌, ◌||◌}
use mathlib.Core.List.{List}
use mathlib.Core.Path.{◌≡◌, refl}
use mathlib.Core.Logic.{◌↔◌}
use native.Mathlib.Omega.{arith}
use text.Mathlib.Text.{◌==◌ as text_eq}
pub use text.Mathlib.TextEquality.{eq_iff}
use state_wake.Base.Tests.{leb, ◌==◌, if◌then◌else◌}

-- `s == t` on texts
infix 50 ◌=ₛ◌
abbrev pub ◌=ₛ◌ : String → String → Bool
s =ₛ t = text_eq s t

-- The characters that `str.strip` removes: those with Unicode property White_Space, and the four
-- information separators.
is_space : ℕ → Bool
is_space c =
    (leb 9 c && leb c 13)
    || (leb 28 c && leb c 32)
    || c == 0x85
    || c == 0xa0
    || c == 0x1680
    || (leb 0x2000 c && leb c 0x200a)
    || c == 0x2028
    || c == 0x2029
    || c == 0x202f
    || c == 0x205f
    || c == 0x3000

-- `not s.strip()`
unfoldable pub is_blank : String → Bool
unfolding is_space
is_blank [] = true
is_blank (c ∷ s) = is_space (code c) && is_blank s

-- `"\n" in s or "\r" in s`
unfoldable pub has_line_break : String → Bool
has_line_break [] = false
has_line_break (c ∷ s) = code c == 10 || code c == 13 || has_line_break s

-- `len(s)`: the number of characters
unfoldable pub text_length : String → ℕ
text_length [] = 0
text_length (c ∷ s) = suc (text_length s)

-- `len(s.encode("utf-8"))`; a text has no lone surrogate
unfoldable pub utf8_length : String → ℕ
utf8_length [] = 0
utf8_length (c ∷ s) =
    let rest = utf8_length s in
    (if leb (code c) 0x7f
      then 1
      else if leb (code c) 0x7ff
      then 2
      else if leb (code c) 0xffff
      then 3
      else 4)
    + rest

-- `all(ch in "0123456789abcdef" for ch in s)`
unfoldable pub all_hex : String → Bool
all_hex [] = true
all_hex (c ∷ s) =
    ((leb b'0' (code c) && leb (code c) b'9') || (leb b'a' (code c) && leb (code c) b'f'))
    && all_hex s

-- `len(s) == 64 and all(ch in "0123456789abcdef" for ch in s)`
unfoldable pub is_sha256 : String → Bool
unfolding text_length all_hex
is_sha256 s = text_length s == 64 && all_hex s

-- `s.startswith(t)`
unfoldable pub starts_with : String → String → Bool
starts_with s [] = true
starts_with [] (d ∷ t) = false
starts_with (c ∷ s) (d ∷ t) = code c == code d && starts_with s t

-- the first character has the code
abbrev pub StartsWithCode : ℕ → String → Type 0
StartsWithCode n [] = ⊥
StartsWithCode n (c ∷ _) = code c ≡ n

pub starts_with-StartsWithCode :
    (s : String) → (starts_with s "/" ≡ false) ↔ (¬ StartsWithCode b'/' s)
unfolding starts_with
starts_with-StartsWithCode [] = (λ h n. n, λ h. refl)
starts_with-StartsWithCode (c ∷ s) = (λ h n. ground arith, λ h. ground arith)

-- `not s`
abbrev pub is_empty : String → Bool
is_empty [] = true
is_empty (_ ∷ _) = false

pub is_empty_iff : (s : String) → (is_empty s ≡ true) ↔ (s ≡ [])
is_empty_iff [] = (λ h. refl, λ h. refl)
is_empty_iff (c ∷ s) = (λ h. cc, λ h. cc)

-- The order of `sorted` on texts: by code points, which is the library's `compare`.
abbrev pub text_le : String → String → Bool
text_le s t = elim (Prim.Native.String.compare s t) [ Ordering.gt ↦ false | _ ↦ true ]

-- `s.replace("\\", "/")`
unfoldable pub forward_slashes : String → String
forward_slashes [] = []
forward_slashes (c ∷ s) =
    let rest = forward_slashes s in if code c == 0x5c then ◌∷◌ "/" rest else c ∷ rest

-- `s.split("/")`: the part read so far is kept in front of the parts of the rest.
unfoldable pub split_slash_from : String → String → List String
split_slash_from part [] = List.◌∷◌ part List.[]
split_slash_from part (c ∷ s) =
    let next = split_slash_from [] s in
    let same = split_slash_from (part <> (c ∷ [])) s in
    if code c == b'/' then List.◌∷◌ part next else same

unfoldable pub split_slash : String → List String
unfolding split_slash_from
split_slash = split_slash_from []

-- What a test unfolds to run the functions on texts.
unfoldable pub text_functions : Unit {0}
unfolding is_blank is_sha256 starts_with forward_slashes split_slash
text_functions = tt
