-- ===== src/Patches/Regex/Spans.antt =====
-- What a pattern of scripts/generate-patches.py takes, without the order in which `re` tries it.
use datadog_sample_finance.Shared.{
  ℕ, suc, zero, ◌≡◌, refl, ap, subst, Bool, true, Option, none, some, [], ◌∷◌, ◌++◌, inl, inr, eqb,
  arith, Bool-cases, Option-cases,
}
use datadog_sample_finance.Patches.Text.{Text, newline, take, drop, is_some}
use datadog_sample_finance.Patches.Regex.{
  one, many, few, line_start, text_end, Pattern, at_end, longer, greedy, lazy, match,
}

-- `Spans p c b s`: behind the character `c` and before the text `s`, the pattern can take `b`.
pub data Spans : Pattern → ℕ → Text → Text → Type 0 where
  stop : {c : ℕ} {s : Text} → Spans [] c [] s
  step :
      {k : ℕ → Bool} {p : Pattern} {c x : ℕ} {b s : Text}
      → k x ≡ true
      → Spans p x b s
      → Spans (one k ∷ p) c (x ∷ b) s
  many_end :
      {k : ℕ → Bool} {p : Pattern} {c : ℕ} {b s : Text} → Spans p c b s → Spans (many k ∷ p) c b s
  many_more :
      {k : ℕ → Bool} {p : Pattern} {c x : ℕ} {b s : Text}
      → k x ≡ true
      → Spans (many k ∷ p) x b s
      → Spans (many k ∷ p) c (x ∷ b) s
  few_end :
      {k : ℕ → Bool} {p : Pattern} {c : ℕ} {b s : Text} → Spans p c b s → Spans (few k ∷ p) c b s
  few_more :
      {k : ℕ → Bool} {p : Pattern} {c x : ℕ} {b s : Text}
      → k x ≡ true
      → Spans (few k ∷ p) x b s
      → Spans (few k ∷ p) c (x ∷ b) s
  at_line :
      {p : Pattern} {c : ℕ} {b s : Text}
      → eqb c newline ≡ true
      → Spans p c b s
      → Spans (line_start ∷ p) c b s
  at_text_end :
      {p : Pattern} {c : ℕ} {b s : Text}
      → at_end (b ++ s) ≡ true
      → Spans p c b s
      → Spans (text_end ∷ p) c b s

pub take-drop : (n : ℕ) (s : Text) → take n s ++ drop n s ≡ s
unfolding take drop
take-drop zero s = refl
take-drop (suc n) [] = refl
take-drop (suc n) (x ∷ s) = ap (λ t. x ∷ t) (take-drop n s)

-- What a matcher finds is a span of the pattern.
abbrev Sound : Pattern → (ℕ → Text → Option ℕ) → Type 0
Sound p f = (c : ℕ) (s : Text) (n : ℕ) → f c s ≡ some n → Spans p c (take n s) (drop n s)

longer-some : (o : Option ℕ) (n : ℕ) → longer o ≡ some n → (m : ℕ) × (o ≡ some m) × (suc m ≡ n)
longer-some none n h = cc
longer-some (some m) n h = (m, refl, ground (arith, h))

module _ (k : ℕ → Bool) (p : Pattern) (f : ℕ → Text → Option ℕ) (found : Sound p f) where
  greedy-Sound : Sound (many k ∷ p) (greedy k f)
  unfolding greedy take drop
  greedy-Sound c [] n h = many_end (found c [] n h)
  greedy-Sound c (x ∷ s) n h = elim (Bool-cases (k x)) [
    | inr e ↦ many_end (found c (x ∷ s) n (ground (arith, h, e)))
    | inl e ↦ elim (Option-cases (greedy k f x s)) [
      | inl g ↦ many_end (found c (x ∷ s) n (ground (arith, h, e, g)))
      | inr (m, g) ↦
          let q : suc m ≡ n = ground (arith, h, e, g) in
          subst (λ i. Spans (many k ∷ p) c (take i (x ∷ s)) (drop i (x ∷ s))) q
            (many_more e (greedy-Sound x s m g))
    ]
  ]

  lazy-Sound : Sound (few k ∷ p) (lazy k f)
  unfolding lazy take drop
  lazy-Sound c [] n h = few_end (found c [] n h)
  lazy-Sound c (x ∷ s) n h = elim (Option-cases (f c (x ∷ s))) [
    | inr (m, g) ↦ few_end (found c (x ∷ s) n (ground (arith, h, g)))
    | inl g ↦ elim (Bool-cases (k x)) [
      | inr e ↦ ground (arith, h, g, e)
      | inl e ↦
          let (m, r, q) = longer-some (lazy k f x s) n (ground (arith, h, g, e)) in
          subst (λ i. Spans (few k ∷ p) c (take i (x ∷ s)) (drop i (x ∷ s))) q
            (few_more e (lazy-Sound x s m r))
    ]
  ]

pub match-Spans : (p : Pattern) → Sound p (match p)
unfolding match take drop
match-Spans [] c s zero h = stop
match-Spans [] c s (suc n) h = ground arith
match-Spans (one k ∷ p) c [] n h = cc
match-Spans (one k ∷ p) c (x ∷ s) n h = elim (Bool-cases (k x)) [
  | inr e ↦ ground (arith, h, e)
  | inl e ↦
      let (m, r, q) = longer-some (match p x s) n (ground (arith, h, e)) in
      subst (λ i. Spans (one k ∷ p) c (take i (x ∷ s)) (drop i (x ∷ s))) q
        (step e (match-Spans p x s m r))
]
match-Spans (many k ∷ p) c s n h = greedy-Sound k p (match p) (match-Spans p) c s n h
match-Spans (few k ∷ p) c s n h = lazy-Sound k p (match p) (match-Spans p) c s n h
match-Spans (line_start ∷ p) c s n h = elim (Bool-cases (eqb c newline)) [
  | inr e ↦ ground (arith, h, e)
  | inl e ↦ at_line e (match-Spans p c s n (ground (arith, h, e)))
]
match-Spans (text_end ∷ p) c s n h = elim (Bool-cases (at_end s)) [
  | inr e ↦ ground (arith, h, e)
  | inl e ↦ at_text_end (rw (take-drop n s) e) (match-Spans p c s n (ground (arith, h, e)))
]

module _ (k : ℕ → Bool) (f : ℕ → Text → Option ℕ) where
  greedy_end : (c : ℕ) (s : Text) → is_some (f c s) ≡ true → is_some (greedy k f c s) ≡ true
  unfolding greedy
  greedy_end c [] h = h
  greedy_end c (x ∷ s) h = ground arith

  greedy_more :
      (c x : ℕ) (s : Text)
      → k x ≡ true
      → is_some (greedy k f x s) ≡ true
      → is_some (greedy k f c (x ∷ s)) ≡ true
  unfolding greedy
  greedy_more c x s e h = ground arith

  lazy_end : (c : ℕ) (s : Text) → is_some (f c s) ≡ true → is_some (lazy k f c s) ≡ true
  unfolding lazy
  lazy_end c [] h = h
  lazy_end c (x ∷ s) h = ground arith

  lazy_more :
      (c x : ℕ) (s : Text)
      → k x ≡ true
      → is_some (lazy k f x s) ≡ true
      → is_some (lazy k f c (x ∷ s)) ≡ true
  unfolding lazy
  lazy_more c x s e h = ground arith

-- The pattern finds something wherever it can take something.
pub Spans-match :
    {p : Pattern} {c : ℕ} {b s : Text} → Spans p c b s → is_some (match p c (b ++ s)) ≡ true
unfolding match
Spans-match stop = refl
Spans-match (step e h) = ground (arith, e, Spans-match h)
Spans-match (many_end {k} {p} {c} {b} {s} h) = greedy_end k (match p) c (b ++ s) (Spans-match h)
Spans-match (many_more {k} {p} {c} {x} {b} {s} e h) =
    greedy_more k (match p) c x (b ++ s) e (Spans-match h)
Spans-match (few_end {k} {p} {c} {b} {s} h) = lazy_end k (match p) c (b ++ s) (Spans-match h)
Spans-match (few_more {k} {p} {c} {x} {b} {s} e h) =
    lazy_more k (match p) c x (b ++ s) e (Spans-match h)
Spans-match (at_line e h) = ground (arith, e, Spans-match h)
Spans-match (at_text_end e h) = ground (arith, e, Spans-match h)
