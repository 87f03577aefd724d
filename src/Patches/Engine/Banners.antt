-- ===== src/Patches/Engine/Banners.antt =====
-- Banners by their opener and their closers, and what `re.sub` of scripts/generate-patches.py does
-- with them.
use datadog_sample_finance.Shared.{
  zero, suc, ◌+◌, none, some, inl, inr, Option-cases, ℕ, ◌≡◌, ap, subst, sym, ◌∙◌, [], ◌∷◌, ◌++◌,
  arith,
}
use datadog_sample_finance.Patches.Text.{Text, size, take, drop}
use datadog_sample_finance.Patches.Regex.{few, Pattern, sub, match}
use datadog_sample_finance.Patches.Regex.Spans.{Spans, take-drop, match-Spans}
use datadog_sample_finance.Patches.Regex.Sub.{
  last_of, takes_none, take-append, drop-append, sub-none, sub-some, lazy-Stops,
}
use datadog_sample_finance.Patches.Code.{literal}
use datadog_sample_finance.Patches.Engine.{any}
use datadog_sample_finance.Patches.Engine.Pieces.{literal-Stops, few_span_of, literal_span_of}

-- A text that closes a banner behind the character `c`.
abbrev pub Closer : Type 1
Closer = ℕ → Text → Type 0

-- A banner: its opener, its body, and its closer.
abbrev pub Banner : Text → Closer → Text → Type 0
Banner opener IsCloser b =
    (body closer : Text) × (b ≡ opener ++ (body ++ closer)) × IsCloser (last_of b' ' body) closer

-- A banner before the text `s` whose closer is the first one behind its opener.
abbrev pub First : Text → Closer → Text → Text → Type 0
First opener IsCloser b s =
    (body closer : Text) × (b ≡ opener ++ (body ++ closer))
    × IsCloser (last_of b' ' body) closer
    × ((a t v u : Text)
        → body ≡ a ++ t
        → (t ≡ [] → ⊥)
        → v ++ u ≡ t ++ (closer ++ s)
        → IsCloser (last_of b' ' a) v
        → ⊥)

-- `Uncommented opener IsCloser f s t`: from left to right, each banner of `s` up to its first closer
-- is replaced by `f` of it in `t`, and a character is copied only where no banner begins.
pub data Uncommented (opener : Text) (IsCloser : Closer) (f : Text → Text)
    : Text → Text → Type 0 where
  done : Uncommented opener IsCloser f [] []
  copied :
      {x : ℕ} {s t : Text}
      → ((b u : Text) → b ++ u ≡ x ∷ s → Banner opener IsCloser b → ⊥)
      → Uncommented opener IsCloser f s t
      → Uncommented opener IsCloser f (x ∷ s) (x ∷ t)
  replaced :
      (b : Text) {s t : Text}
      → First opener IsCloser b s
      → Uncommented opener IsCloser f s t
      → Uncommented opener IsCloser f (b ++ s) (f b ++ t)

module _ (o : ℕ) (op : Text) (tail : Pattern) (IsCloser : Closer)
    (closes : (c : ℕ) (b s : Text) → Spans tail c b s → IsCloser c b)
    (spans : (c : ℕ) (b s : Text) → IsCloser c b → Spans tail c b s)
    (ends_in_space : (c : ℕ) → last_of c (o ∷ op) ≡ b' ') where
  abbrev opener : Text
  opener = o ∷ op

  abbrev pattern_of : Pattern
  pattern_of = literal opener ++ few any ∷ tail

  none_begins :
      (c : ℕ) (s : Text)
      → match pattern_of c s ≡ none
      → (b u : Text) → b ++ u ≡ s
      → Banner opener IsCloser b
      → ⊥
  none_begins c s h b u e (body, closer, q, closed) = takes_none pattern_of c s h b u e (
      subst (λ z. Spans pattern_of c z u) (sym q)
        (literal_span_of opener (few any ∷ tail) c (body ++ closer) u (
          few_span_of _ body closer u (
            spans _ closer u
              (subst (λ z. IsCloser (last_of z body) closer) (sym (ends_in_space c)) closed)))))

  matched :
      (c n : ℕ) (s : Text)
      → match pattern_of c s ≡ some n
      → ((k : ℕ) × (n ≡ suc k)) × First opener IsCloser (take n s) (drop n s)
  unfolding match size
  matched c n s h =
      let (t, m, q1, r1, z1) = literal-Stops opener (few any ∷ tail) c n s h in
      let (body, u, k, q2, r2, z2, first) = lazy-Stops any (match tail) (last_of c opener) m t z1 in
      let space : last_of c opener ≡ b' ' = ends_in_space c in
      let text : s ≡ opener ++ (body ++ u) = q1 ∙ ap (λ z. opener ++ z) q2 in
      let length : n ≡ size opener + (size body + k) = r1 ∙ ap (λ z. size opener + z) r2 in
      let taken : take n s ≡ opener ++ (body ++ take k u) =
        ap (take n) text
        ∙ ap (λ z. take z (opener ++ (body ++ u))) length
        ∙ take-append opener (body ++ u) (size body + k)
        ∙ ap (λ z. opener ++ z) (take-append body u k) in
      let left : drop n s ≡ drop k u =
        ap (drop n) text
        ∙ ap (λ z. drop z (opener ++ (body ++ u))) length
        ∙ drop-append opener (body ++ u) (size body + k)
        ∙ drop-append body u k in
      let whole : take k u ++ drop n s ≡ u = ap (λ z. take k u ++ z) left ∙ take-drop k u in
      (
        (size op + (size body + k), length ∙ ground arith),
        (
          body,
          take k u,
          taken,
          subst (λ z. IsCloser (last_of z body) (take k u)) space
              (closes _ (take k u) (drop k u) (match-Spans tail _ u k z2)),
          λ a t' v u' split ne e closed.
              takes_none tail (last_of (last_of c opener) a) (t' ++ u) (first a t' split ne) v u'
                (e ∙ ap (λ z. t' ++ z) whole)
                (spans _ v u' (subst (λ z. IsCloser (last_of z a) v) (sym space) closed)),
        ),
      )

  -- `sub` of the pattern is described by its opener and its closers.
  pub sub-Uncommented :
      (f : Text → Text) (c n : ℕ) (s : Text)
      → Uncommented opener IsCloser f (drop n s) (sub pattern_of f c n s)
  unfolding sub take drop
  sub-Uncommented f c zero [] = done
  sub-Uncommented f c (suc n) [] = done
  sub-Uncommented f c (suc n) (x ∷ s) = sub-Uncommented f x n s
  sub-Uncommented f c zero (x ∷ s) = elim (Option-cases (match pattern_of c (x ∷ s))) [
    | inl e ↦
        subst (Uncommented opener IsCloser f (x ∷ s)) (sym (sub-none pattern_of f c x s e))
          (copied (none_begins c (x ∷ s) e) (sub-Uncommented f x zero s))
    | inr (zero, e) ↦ let ((k, q), _) = matched c 0 (x ∷ s) e in absurd (ground (arith, q))
    | inr (suc n, e) ↦
        let (_, first) = matched c (suc n) (x ∷ s) e in
        let here : Uncommented opener IsCloser f ((x ∷ take n s) ++ drop n s)
            (f (x ∷ take n s) ++ sub pattern_of f x n s) =
          replaced (x ∷ take n s) first (sub-Uncommented f x n s) in
        subst (Uncommented opener IsCloser f (x ∷ s)) (sym (sub-some pattern_of f c x n s e)) (
          subst (λ i. Uncommented opener IsCloser f i (f (x ∷ take n s) ++ sub pattern_of f x n s))
            (ap (λ t. x ∷ t) (take-drop n s)) here)
  ]
