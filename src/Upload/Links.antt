-- ===== src/Upload/Links.antt =====
-- The links that an answer carries.
use Prim.Native.Char.{Char, code}
use Prim.Native.String
use text.Mathlib.TextLemmas.{nil-append, cons-append}
use pichost.Common.{◌≢◌, String, arith, ◌==◌, Bool-cases, inl, inr}
use pichost.Upload.{escape_char, html_escape}

-- No quotation mark and no angle bracket.
abbrev pub IsInert : String → Type 0
IsInert String.[] = Unit
IsInert (String.◌∷◌ c s) = ((code c ≢ b'"') × (code c ≢ b'<') × (code c ≢ b'>')) × IsInert s

IsInert-append : (s t : String) → IsInert s → IsInert t → IsInert (String.◌++◌ s t)
IsInert-append String.[] t h k = rw nil-append k
IsInert-append (String.◌∷◌ c s) t (p, h) k = rw cons-append (p, IsInert-append s t h k)

escape_char-IsInert : (c : Char) → IsInert (escape_char c)
escape_char-IsInert c = elim (Bool-cases (code c == b'&')) [
  | inl e ↦ rw e (omega arith)
  | inr e1 ↦ rw e1 (elim (Bool-cases (code c == b'<')) [
    | inl e ↦ rw e (omega arith)
    | inr e2 ↦ rw e2 (elim (Bool-cases (code c == b'>')) [
      | inl e ↦ rw e (omega arith)
      | inr e3 ↦ rw e3 (elim (Bool-cases (code c == b'"')) [
        | inl e ↦ rw e (omega arith)
        | inr e4 ↦ rw e4 ((ground arith, ground arith, ground arith), tt)
      ])
    ])
  ])
]

-- Whatever the text, its escaped form has no character that ends an attribute value or a tag.
pub html_escape-IsInert : (s : String) → IsInert (html_escape s)
unfolding html_escape
html_escape-IsInert String.[] = tt
html_escape-IsInert (String.◌∷◌ c s) =
    IsInert-append _ (html_escape s) (escape_char-IsInert c) (html_escape-IsInert s)
