-- ===== src/Patches/Code/Marks.antt =====
-- What the engine takes for code does not begin, behind its indentation, like a comment.
use datadog_sample_finance.Shared.{
  ℕ, ◌≡◌, refl, ap, sym, ◌∙◌, Bool, true, false, not, ◌&&◌, ◌||◌, Option, none, some, List, [], ◌∷◌,
  ◌++◌, inl, inr, eqb, arith, Bool-cases, if◌then◌else◌,
}
use datadog_sample_finance.Patches.Text.{
  Text, codes, newline, is_space, is_some, has_prefix, has_any_prefix, without_prefix, indent_of,
  lstrip, rstrip, strip,
}
use datadog_sample_finance.Patches.Regex.{one, Pattern, match, longer}
use datadog_sample_finance.Patches.Code.{
  same, is_lower, is_word, is_quote, keywords_py, keywords_js, call_line_py, argument_py,
  is_code_py, is_code_js, call_js, property_js, key_js,
}

-- Whether the first character that is no white space is `m`.
unfoldable pub shows : ℕ → Text → Bool
shows m [] = false
shows m (x ∷ s) = let rest = shows m s in if is_space x then rest else eqb x m

pub shows-lstrip : (m : ℕ) (s : Text) → shows m (lstrip s) ≡ shows m s
unfolding shows lstrip
shows-lstrip m [] = refl
shows-lstrip m (x ∷ s) = ground (arith, shows-lstrip m s)

shows-rstrip : (m : ℕ) (s : Text) → shows m (rstrip s) ≡ shows m s
unfolding shows rstrip
shows-rstrip m [] = refl
shows-rstrip m (x ∷ s) = ground (arith, shows-rstrip m s)

pub shows-strip : (m : ℕ) (s : Text) → shows m (strip s) ≡ shows m s
shows-strip m s = shows-lstrip m (rstrip s) ∙ shows-rstrip m s

pub shows-indent : (m : ℕ) (s t : Text) → shows m (indent_of s ++ t) ≡ shows m t
unfolding shows indent_of
shows-indent m [] t = refl
shows-indent m (x ∷ s) t = ground (arith, shows-indent m s t)

-- A text that begins neither with white space nor with the mark.
abbrev clear : ℕ → Text → Bool
clear m [] = false
clear m (c ∷ p) = not (is_space c) && not (eqb c m)

unfoldable clears : ℕ → List Text → Bool
clears m [] = true
clears m (p ∷ ps) = clear m p && clears m ps

clear_prefix : (m : ℕ) (p s : Text) → clear m p ≡ true → shows m s ≡ true → has_prefix p s ≡ false
unfolding shows without_prefix
clear_prefix m [] s h e = cc
clear_prefix m (c ∷ p) [] h e = refl
clear_prefix m (c ∷ p) (x ∷ s) h e = ground arith

clear_prefixes :
    (m : ℕ) (ps : List Text) (s : Text)
    → clears m ps ≡ true
    → shows m s ≡ true
    → has_any_prefix ps s ≡ false
unfolding clears has_any_prefix
clear_prefixes m [] s h e = refl
clear_prefixes m (p ∷ ps) s h e = ground (arith, clear_prefix m p s, clear_prefixes m ps s)

clear-same : (m : ℕ) (p s : Text) → clear m p ≡ true → shows m s ≡ true → same p s ≡ false
clear-same m p s h e = ground (arith, clear_prefix m p s h e)

pub eq_of : (x m : ℕ) → eqb x m ≡ true → x ≡ m
eq_of x m h = ground arith

is_some-longer : (o : Option ℕ) → is_some (longer o) ≡ is_some o
is_some-longer none = refl
is_some-longer (some n) = refl

-- A pattern that takes nothing of a text which shows the mark.
abbrev Avoids : ℕ → Pattern → Type 0
Avoids m p = (c : ℕ) (s : Text) → shows m s ≡ true → is_some (match p c s) ≡ false

one-Avoids :
    (m : ℕ) (k : ℕ → Bool) (p : Pattern)
    → ((x : ℕ) → is_space x ≡ true → k x ≡ false)
    → k m ≡ false
    → Avoids m (one k ∷ p)
unfolding shows match
one-Avoids m k p h i c [] e = refl
one-Avoids m k p h i c (x ∷ s) e =
    let q : k x ≡ false = elim (Bool-cases (is_space x)) [
      | inl j ↦ h x j
      | inr j ↦ ap k (eq_of x m (ground (arith, e, j))) ∙ i
    ] in
    ground (arith, q)

is_space_blank : is_space b' ' ≡ true
unfolding is_space
is_space_blank = refl

shows_space : (m x : ℕ) (s : Text) → is_space x ≡ true → shows m (x ∷ s) ≡ shows m s
unfolding shows
shows_space m x s h = ground arith

blank-Avoids : (m : ℕ) (p : Pattern) → Avoids m p → Avoids m (one (eqb b' ') ∷ p)
unfolding match
blank-Avoids m p h c [] e = refl
blank-Avoids m p h c (x ∷ s) e = elim (Bool-cases (eqb b' ' x)) [
  | inr j ↦ ground (arith, j)
  | inl j ↦
      let i : is_space x ≡ true = ap is_space (sym (eq_of b' ' x j)) ∙ is_space_blank in
      let q : shows m s ≡ true = sym (shows_space m x s i) ∙ e in
      ground (arith, j, is_some-longer (match p x s), h x s q)
]

-- No white space is a letter, a quote or one of the other characters that open a line of code.
space_is_lower : (x : ℕ) → is_space x ≡ true → (is_lower x || eqb x b'_') ≡ false
unfolding is_space
space_is_lower x h = ground arith

space_is_word : (x : ℕ) → is_space x ≡ true → (is_word x || eqb x b'$') ≡ false
unfolding is_space
space_is_word x h = ground arith

space_is_quote : (x : ℕ) → is_space x ≡ true → is_quote x ≡ false
unfolding is_space
space_is_quote x h = ground arith

call_line_py-Avoids : Avoids b'#' call_line_py
call_line_py-Avoids = one-Avoids b'#' is_word _ (λ x h. ground (arith, space_is_word x h)) refl

argument_py-Avoids : Avoids b'#' argument_py
argument_py-Avoids = blank-Avoids b'#' _ (
    blank-Avoids b'#' _
      (blank-Avoids b'#' _ (blank-Avoids b'#' _ (one-Avoids b'#' _ _ space_is_lower refl))))

pub is_code_py-shows : (rest : Text) → is_code_py rest ≡ true → shows b'#' rest ≡ false
unfolding is_code_py clears is_space
is_code_py-shows rest h = elim (Bool-cases (shows b'#' rest)) [
  | inr e ↦ e
  | inl e ↦
      let s : Text = strip rest in
      let e' : shows b'#' s ≡ true = shows-strip b'#' rest ∙ e in
      ground (
        arith,
        h,
        clear_prefixes b'#' keywords_py rest refl e,
        clear_prefix b'#' (codes ")") s refl e',
        clear_prefix b'#' (codes "}") s refl e',
        clear_prefix b'#' (codes "\"") s refl e',
        clear_prefix b'#' (codes "f'") s refl e',
        clear_prefix b'#' (codes "f\"") s refl e',
        clear_prefix b'#' (codes "],") s refl e',
        clear-same b'#' (codes "]") s refl e',
        call_line_py-Avoids newline s e',
        argument_py-Avoids newline rest e,
      )
]

call_js-Avoids : Avoids b'/' call_js
call_js-Avoids = one-Avoids b'/' _ _ space_is_word refl

property_js-Avoids : Avoids b'/' property_js
property_js-Avoids = one-Avoids b'/' _ _ space_is_quote refl

key_js-Avoids : Avoids b'/' key_js
key_js-Avoids =
    blank-Avoids b'/' _
      (blank-Avoids b'/' _ (one-Avoids b'/' _ _ (λ x h. ground (arith, space_is_lower x h)) refl))

pub is_code_js-shows : (rest : Text) → is_code_js rest ≡ true → shows b'/' rest ≡ false
unfolding is_code_js clears is_space
is_code_js-shows rest h = elim (Bool-cases (shows b'/' rest)) [
  | inr e ↦ e
  | inl e ↦
      let s : Text = strip rest in
      let e' : shows b'/' s ≡ true = shows-strip b'/' rest ∙ e in
      ground (
        arith,
        h,
        clear_prefixes b'/' keywords_js rest refl e,
        clear_prefix b'/' (codes "}") s refl e',
        clear_prefix b'/' (codes ")") s refl e',
        clear-same b'/' (codes "});") s refl e',
        clear-same b'/' (codes ");") s refl e',
        call_js-Avoids newline s e',
        property_js-Avoids newline s e',
        key_js-Avoids newline rest e,
      )
]
