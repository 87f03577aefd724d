-- ===== src/Patches/Engine/Pieces.antt =====
-- The runs, literals and rules that the banners of scripts/generate-patches.py are made of: what the
-- patterns take of them, and that they take them.
use datadog_sample_finance.Shared.{
  ◌+◌, some, inl, inr, Bool-cases, Option-cases, ℕ, ◌≡◌, refl, ap, subst, sym, ◌∙◌, Bool, true,
  ◌&&◌, [], ◌∷◌, ◌++◌, eqb, arith,
}
use datadog_sample_finance.Patches.Text.{Text, size, codes, newline, dash}
use datadog_sample_finance.Patches.Regex.{one, many, few, line_start, Pattern, match}
use datadog_sample_finance.Patches.Regex.Spans.{
  Spans, stop, step, many_end, many_more, few_end, few_more, at_line,
}
use datadog_sample_finance.Patches.Regex.Sub.{last_of}
use datadog_sample_finance.Patches.Code.{literal}
use datadog_sample_finance.Patches.Code.Marks.{eq_of}
use datadog_sample_finance.Patches.Engine.{any, rule_line}

-- A text in which every character is of the class.
unfoldable pub all_of : (ℕ → Bool) → Text → Bool
all_of k [] = true
all_of k (x ∷ s) = k x && all_of k s

pub literal_span :
    (p : Text) (q : Pattern) (c : ℕ) (b s : Text)
    → Spans (literal p ++ q) c b s
    → (t : Text) × (b ≡ p ++ t) × Spans q (last_of c p) t s
unfolding last_of
literal_span [] q c b s h = (b, refl, h)
literal_span (x ∷ p) q c _ s (step {x = y} {b} e h) =
    let (t, i, g) = literal_span p q y b s h in
    let j : y ≡ x = sym (eq_of x y e) in
    (t, ap (λ l. y ∷ l) i ∙ ap (λ z. z ∷ (p ++ t)) j, subst (λ z. Spans q (last_of z p) t s) j g)

pub many_span :
    {k : ℕ → Bool} {q : Pattern} (c : ℕ) (b s : Text)
    → Spans (many k ∷ q) c b s
    → (a t : Text) × (b ≡ a ++ t) × (all_of k a ≡ true) × Spans q (last_of c a) t s
unfolding last_of all_of
many_span c b s (many_end h) = ([], b, refl, refl, h)
many_span c _ s (many_more {x} {b} e h) =
    let (a, t, i, j, g) = many_span x b s h in
    (x ∷ a, t, ap (λ l. x ∷ l) i, ground (arith, e, j), g)

pub line_span :
    {q : Pattern} (c : ℕ) (b s : Text)
    → Spans (line_start ∷ q) c b s
    → (c ≡ newline) × Spans q c b s
line_span c b s (at_line e h) = (eq_of c newline e, h)

pub end_span : (c : ℕ) (b s : Text) → Spans [] c b s → b ≡ []
end_span c b s stop = refl

-- The rest of a closing line: a rule of five dashes or more.
pub rule_span :
    (c : ℕ) (b s : Text)
    → Spans rule_line c b s
    → (r : Text) × (all_of (eqb dash) r ≡ true) × (b ≡ codes "─────" ++ (r ++ newline ∷ []))
rule_span c b s h =
    let (t, i, g) =
      literal_span (codes "─────") (many (eqb dash) ∷ one (eqb newline) ∷ []) c b s h in
    let (r, u, j, k, l) = many_span (last_of c (codes "─────")) t s g in
    let (v, m, n) = literal_span (newline ∷ []) [] _ u s l in
    (
      r,
      k,
      i
          ∙ ap (λ z. codes "─────" ++ z)
              (j ∙ ap (λ z. r ++ z) (m ∙ ap (λ z. newline ∷ z) (end_span _ v s n))),
    )

pub literal-Stops :
    (p : Text) (q : Pattern) (c n : ℕ) (s : Text)
    → match (literal p ++ q) c s ≡ some n
    → (t : Text) × (m : ℕ) × (s ≡ p ++ t) × (n ≡ size p + m) × (match q (last_of c p) t ≡ some m)
unfolding match last_of size
literal-Stops [] q c n s h = (s, n, refl, ground arith, h)
literal-Stops (x ∷ p) q c n [] h = cc
literal-Stops (x ∷ p) q c n (y ∷ s) h = elim (Bool-cases (eqb x y)) [
  | inr e ↦ ground (arith, h, e)
  | inl e ↦ elim (Option-cases (match (literal p ++ q) y s)) [
    | inl l ↦ ground (arith, h, e, l)
    | inr (i, l) ↦
        let (t, m, j, r, z) = literal-Stops p q y i s l in
        let same : y ≡ x = sym (eq_of x y e) in
        (
          t,
          m,
          ap (λ z. y ∷ z) j ∙ ap (λ z. z ∷ (p ++ t)) same,
          ground (arith, h, e, l, r),
          subst (λ c. match q (last_of c p) t ≡ some m) same z,
        )
  ]
]

pub many_span_of :
    {k : ℕ → Bool} {q : Pattern} (c : ℕ) (a t s : Text)
    → all_of k a ≡ true
    → Spans q (last_of c a) t s
    → Spans (many k ∷ q) c (a ++ t) s
unfolding all_of last_of
many_span_of c [] t s h g = many_end g
many_span_of {k} c (x ∷ a) t s h g =
    many_more (ground (arith, h)) (many_span_of x a t s (ground (arith, h)) g)

pub few_span_of :
    {q : Pattern} (c : ℕ) (a t s : Text)
    → Spans q (last_of c a) t s
    → Spans (few any ∷ q) c (a ++ t) s
unfolding last_of
few_span_of c [] t s g = few_end g
few_span_of c (x ∷ a) t s g = few_more refl (few_span_of x a t s g)

pub literal_span_of :
    (p : Text) (q : Pattern) (c : ℕ) (t s : Text)
    → Spans q (last_of c p) t s
    → Spans (literal p ++ q) c (p ++ t) s
unfolding last_of
literal_span_of [] q c t s g = g
literal_span_of (x ∷ p) q c t s g = step (ground arith) (literal_span_of p q x t s g)

pub rule_span_of :
    (c : ℕ) (r s : Text)
    → all_of (eqb dash) r ≡ true
    → Spans rule_line c (codes "─────" ++ (r ++ newline ∷ [])) s
unfolding last_of
rule_span_of c r s h =
    literal_span_of (codes "─────") (many (eqb dash) ∷ one (eqb newline) ∷ []) c (r ++ newline ∷ [])
      s (many_span_of _ r (newline ∷ []) s h (step refl stop))
