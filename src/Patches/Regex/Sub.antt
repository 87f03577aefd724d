-- ===== src/Patches/Regex/Sub.antt =====
-- What `re` does of scripts/generate-patches.py: where a lazy run ends, and the two steps of `sub`.
use datadog_sample_finance.Shared.{
  ℕ, ◌+◌, Option, ◌∙◌, Bool-cases, ◌++◌, suc, zero, ◌≡◌, refl, ap, subst, sym, Bool, true, none,
  some, [], ◌∷◌, ◌++◌, inl, inr, arith, Option-cases,
}
use datadog_sample_finance.Patches.Text.{size, Text, take, drop, is_some}
use datadog_sample_finance.Patches.Regex.{lazy, Pattern, match, sub}
use datadog_sample_finance.Patches.Regex.Spans.{Spans, Spans-match}

-- The last character of a text that stands behind `c`.
unfoldable pub last_of : ℕ → Text → ℕ
last_of c [] = c
last_of c (x ∷ s) = last_of x s

pub takes_none :
    (p : Pattern) (c : ℕ) (s : Text)
    → match p c s ≡ none
    → (b u : Text) → b ++ u ≡ s
    → Spans p c b u
    → ⊥
takes_none p c s h b u e g =
    ground (arith, h, subst (λ i. is_some (match p c i) ≡ true) e (Spans-match g))

pub sub-none :
    (p : Pattern) (f : Text → Text) (c x : ℕ) (s : Text)
    → match p c (x ∷ s) ≡ none
    → sub p f c zero (x ∷ s) ≡ x ∷ sub p f x zero s
unfolding sub
sub-none p f c x s h = ground arith

pub sub-some :
    (p : Pattern) (f : Text → Text) (c x n : ℕ) (s : Text)
    → match p c (x ∷ s) ≡ some (suc n)
    → sub p f c zero (x ∷ s) ≡ f (x ∷ take n s) ++ sub p f x n s
unfolding sub take
sub-some p f c x n s h = ground arith

add_suc : (n m : ℕ) → suc n + m ≡ suc (n + m)
add_suc n m = omega arith

pub take-append : (a u : Text) (m : ℕ) → take (size a + m) (a ++ u) ≡ a ++ take m u
unfolding take size
take-append [] u m = ground arith
take-append (x ∷ a) u m =
    ap (λ n. take n (x ∷ (a ++ u))) (add_suc (size a) m) ∙ ap (λ t. x ∷ t) (take-append a u m)

pub drop-append : (a u : Text) (m : ℕ) → drop (size a + m) (a ++ u) ≡ drop m u
unfolding drop size
drop-append [] u m = ground arith
drop-append (x ∷ a) u m = ap (λ n. drop n (x ∷ (a ++ u))) (add_suc (size a) m) ∙ drop-append a u m

-- How far a lazy run goes: to the first place where the rest of the pattern takes something.
abbrev pub Stops : (ℕ → Text → Option ℕ) → ℕ → Text → ℕ → Type 0
Stops rest c s n =
    (a u : Text) × (m : ℕ) × (s ≡ a ++ u)
    × (n ≡ size a + m)
    × (rest (last_of c a) u ≡ some m)
    × ((b t : Text) → a ≡ b ++ t → (t ≡ [] → ⊥) → rest (last_of c b) (t ++ u) ≡ none)

not_split : (b t : Text) → [] ≡ b ++ t → (t ≡ [] → ⊥) → ⊥
not_split [] t e h = h (sym e)
not_split (x ∷ b) t e h = ground (arith, e)

first_more :
    (rest : ℕ → Text → Option ℕ) (c x : ℕ) (a s u : Text)
    → s ≡ a ++ u
    → rest c (x ∷ s) ≡ none
    → ((b t : Text) → a ≡ b ++ t → (t ≡ [] → ⊥) → rest (last_of x b) (t ++ u) ≡ none)
    → (b t : Text) → x ∷ a ≡ b ++ t
    → (t ≡ [] → ⊥)
    → rest (last_of c b) (t ++ u) ≡ none
unfolding last_of
first_more rest c x a s u q g first [] t e ne =
    ap (λ z. rest c (z ++ u)) (sym e) ∙ ap (λ z. rest c (x ∷ z)) (sym q) ∙ g
first_more rest c x a s u q g first (y ∷ b) t e ne =
    let head : x ≡ y = ground (arith, e) in
    let tail : a ≡ b ++ t = ground (arith, e) in
    subst (λ z. rest (last_of z b) (t ++ u) ≡ none) head (first b t tail ne)

pub lazy-Stops :
    (k : ℕ → Bool) (rest : ℕ → Text → Option ℕ) (c n : ℕ) (s : Text)
    → lazy k rest c s ≡ some n
    → Stops rest c s n
unfolding lazy last_of size
lazy-Stops k rest c n [] h =
    ([], [], n, refl, ground arith, h, λ b t e ne. absurd (not_split b t e ne))
lazy-Stops k rest c n (x ∷ s) h = elim (Option-cases (rest c (x ∷ s))) [
  | inr (m, g) ↦
      ([], x ∷ s, m, refl, ground (arith, h, g), g, λ b t e ne. absurd (not_split b t e ne))
  | inl g ↦ elim (Bool-cases (k x)) [
    | inr e ↦ ground (arith, h, g, e)
    | inl e ↦ elim (Option-cases (lazy k rest x s)) [
      | inl l ↦ ground (arith, h, g, e, l)
      | inr (i, l) ↦
          let (a, u, m, q, r, z, first) = lazy-Stops k rest x i s l in
          (
            x ∷ a,
            u,
            m,
            ap (λ t. x ∷ t) q,
            ground (arith, h, g, e, l, r),
            z,
            first_more rest c x a s u q g first,
          )
    ]
  ]
]
