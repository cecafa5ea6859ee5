-- ===== src/Gst/StateCodes.antt =====
-- State codes as texts: `strip`, comparison, and the union territories
-- (backend/src/domains/taxation/services.py). A text is the list of its code points.
use bookkeeping.Base.{
  Bool, List, Option, [], codes, false, if◌then◌else◌, leb, none, some, true, ℕ, ◌&&◌, ◌==◌, ◌||◌,
  ◌∷◌,
}

-- `str.isspace` of one character.
unfoldable pub is_space : ℕ → Bool
is_space c =
    (leb 9 c && leb c 13)
    || (leb 28 c && leb c 32)
    || c == 133
    || c == 160
    || c == 5760
    || (leb 8192 c && leb c 8202)
    || c == 8232
    || c == 8233
    || c == 8239
    || c == 8287
    || c == 12288

unfoldable pub lstrip : List ℕ → List ℕ
lstrip [] = []
lstrip (c ∷ cs) = if is_space c then lstrip cs else c ∷ cs

-- White space at the end goes.
unfoldable pub rstrip : List ℕ → List ℕ
rstrip [] = []
rstrip (c ∷ cs) = elim (rstrip cs) [ [] ↦ if is_space c then [] else c ∷ [] | d ∷ ds ↦ c ∷ d ∷ ds ]

unfoldable pub strip : List ℕ → List ℕ
unfolding lstrip rstrip is_space
strip cs = rstrip (lstrip cs)

abbrev pub text_eq : List ℕ → List ℕ → Bool
text_eq [] [] = true
text_eq [] (d ∷ ds) = false
text_eq (c ∷ cs) [] = false
text_eq (c ∷ cs) (d ∷ ds) = c == d && text_eq cs ds

abbrev pub is_in : List ℕ → List (List ℕ) → Bool
is_in cs [] = false
is_in cs (t ∷ ts) = text_eq cs t || is_in cs ts

-- `UNION_TERRITORIES`
abbrev pub union_territories : List (List ℕ)
union_territories = codes "31" ∷ codes "25" ∷ codes "26" ∷ codes "04" ∷ codes "35" ∷ codes "38" ∷ []

-- `(code or "").strip()`
unfoldable pub cleaned : Option (List ℕ) → List ℕ
unfolding strip
cleaned none = []
cleaned (some cs) = strip cs

abbrev pub is_empty : List ℕ → Bool
is_empty [] = true
is_empty (c ∷ cs) = false
