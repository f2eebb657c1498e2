-- ===== src/Std/Strings.antt =====
-- Package strings: HasPrefix, TrimSpace, Fields, Join and Split at one byte. White space is the
-- ASCII white space; a byte from 0x80 on counts as a letter.
use sentinel_zero_trust.Common.{
  ℕ, ◌≡◌, refl, sym, ap, ◌∙◌, ◌≢◌, Bool, true, false, ◌||◌, ◌&&◌, List, [], ◌∷◌, ◌++◌, Text, codes,
  arith, leb, ◌==◌, ==_iff, if◌then◌else◌, All, append_assoc, append-nil,
}
use mathlib.Core.List.{reverse}

abbrev pub is_space : ℕ → Bool
is_space c = c == b' ' || (leb 9 c && leb c 13)

unfoldable pub has_prefix : Text → Text → Bool
has_prefix s [] = true
has_prefix [] (y ∷ ys) = false
has_prefix (x ∷ xs) (y ∷ ys) = x == y && has_prefix xs ys

unfoldable pub contains : ℕ → Text → Bool
contains c [] = false
contains c (x ∷ xs) = x == c || contains c xs

unfoldable pub trim_left : Text → Text
trim_left [] = []
trim_left (x ∷ xs) = if is_space x then trim_left xs else x ∷ xs

unfoldable pub trim_space : Text → Text
unfolding trim_left
trim_space s = reverse (trim_left (reverse (trim_left s)))

-- The word that is being read comes first, if one is.
abbrev cons_word : Text → List Text → List Text
cons_word [] ws = ws
cons_word (c ∷ w) ws = (c ∷ w) ∷ ws

-- `w` is what has been read of the current word.
unfoldable pub fields_from : Text → Text → List Text
fields_from w [] = cons_word w []
fields_from w (c ∷ s) = elim (is_space c) [
  | true ↦ cons_word w (fields_from [] s)
  | false ↦ fields_from (w ++ (c ∷ [])) s
]

unfoldable pub fields : Text → List Text
unfolding fields_from
fields s = fields_from [] s

-- `strings.SplitSeq(s, ",")` with the separator `sep`: one part more than there are separators.
unfoldable pub split_from : ℕ → Text → Text → List Text
split_from sep w [] = w ∷ []
split_from sep w (c ∷ s) = elim (c == sep) [
  | true ↦ w ∷ split_from sep [] s
  | false ↦ split_from sep (w ++ (c ∷ [])) s
]

unfoldable pub split : ℕ → Text → List Text
unfolding split_from
split sep s = split_from sep [] s

abbrev pub join : Text → List Text → Text
join sep [] = []
join sep (w ∷ []) = w
join sep (w ∷ v ∷ ws) = w ++ (sep ++ join sep (v ∷ ws))

pub has_prefix-append : (p s : Text) → has_prefix (p ++ s) p ≡ true
unfolding has_prefix
has_prefix-append [] [] = refl
has_prefix-append [] (c ∷ s) = refl
has_prefix-append (x ∷ p) s = ground (arith, has_prefix-append p s)

pub contains-append : (c : ℕ) (s t : Text) → contains c (s ++ t) ≡ (contains c s || contains c t)
unfolding contains
contains-append c [] t = refl
contains-append c (x ∷ s) t = ground (arith, contains-append c s t)

-- A word of a command line: not empty and free of white space.
abbrev pub NoSpace : Text → Type 0
NoSpace = All (λ c. is_space c ≡ false)

abbrev pub IsWord : Text → Type 0
IsWord w = (w ≢ []) × NoSpace w

fields_from-word : (w v s : Text) → NoSpace v → fields_from w (v ++ s) ≡ fields_from (w ++ v) s
unfolding fields_from
fields_from-word w [] s h = rw append-nil
fields_from-word w (c ∷ v) s (hc, h) =
    rw (hc, fields_from)
      (fields_from-word (w ++ (c ∷ [])) v s h
        ∙ ap (λ t. fields_from t s) (append_assoc w (c ∷ []) v))

cons_word-word : (w : Text) (ws : List Text) → w ≢ [] → cons_word w ws ≡ w ∷ ws
cons_word-word [] ws h = absurd (h refl)
cons_word-word (c ∷ w) ws h = refl

-- Words that are joined by single spaces are read back by `fields`.
pub fields-join : (ws : List Text) → All IsWord ws → fields (join (codes " ") ws) ≡ ws
unfolding fields fields_from
fields-join [] h = refl
fields-join (w ∷ []) ((ne, h), _) =
    ap (fields_from []) (sym (append-nil w)) ∙ fields_from-word [] w [] h ∙ cons_word-word w [] ne
fields-join (w ∷ v ∷ ws) ((ne, h), hs) =
    fields_from-word [] w _ h
    ∙ cons_word-word w (fields (join (codes " ") (v ∷ ws))) ne
    ∙ ap (λ r. w ∷ r) (fields-join (v ∷ ws) hs)

-- Parts without the separator are read back by `split`.
abbrev pub Lacks : ℕ → Text → Type 0
Lacks c = All (λ x. (x == c) ≡ false)

pub Lacks-contains : (c : ℕ) (s : Text) → Lacks c s → contains c s ≡ false
unfolding contains
Lacks-contains c [] h = refl
Lacks-contains c (x ∷ s) (hx, h) = rw (hx, contains) (Lacks-contains c s h)

split_from-part :
    (sep : ℕ) (w v s : Text) → Lacks sep v → split_from sep w (v ++ s) ≡ split_from sep (w ++ v) s
unfolding split_from
split_from-part sep w [] s h = rw append-nil
split_from-part sep w (c ∷ v) s (hc, h) =
    rw (hc, split_from)
      (split_from-part sep (w ++ (c ∷ [])) v s h
        ∙ ap (λ t. split_from sep t s) (append_assoc w (c ∷ []) v))

self_eq : (c : ℕ) → (c == c) ≡ true
self_eq c = (==_iff c c).1 refl

split_from-join :
    (sep : ℕ) (v : Text) (ws : List Text)
    → All (Lacks sep) (v ∷ ws)
    → split sep (join (sep ∷ []) (v ∷ ws)) ≡ v ∷ ws
unfolding split split_from
split_from-join sep v [] (h, _) =
    ap (split_from sep []) (sym (append-nil v)) ∙ split_from-part sep [] v [] h
split_from-join sep v (w ∷ ws) (h, hs) =
    split_from-part sep [] v _ h
    ∙ rw (self_eq sep, split_from) (ap (λ r. v ∷ r) (split_from-join sep w ws hs))

pub split-join :
    (sep : ℕ) (ws : List Text) → ws ≢ [] → All (Lacks sep) ws → split sep (join (sep ∷ []) ws) ≡ ws
split-join sep [] ne h = absurd (ne refl)
split-join sep (v ∷ ws) ne h = split_from-join sep v ws h
