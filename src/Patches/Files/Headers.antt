-- ===== src/Patches/Files/Headers.antt =====
-- The headers of a patch that scripts/generate-patches.py writes.
use datadog_sample_finance.Shared.{
  ℕ, String, ◌≡◌, refl, sym, ap, ◌∙◌, ◌+◌, true, false, Option, some, [], ◌∷◌, ◌++◌, eqb, not,
  arith,
}
use datadog_sample_finance.Patches.Text.{Text, codes, newline, size, drop}
use datadog_sample_finance.Patches.Regex.{Pattern, one, many, line_start, match, greedy, sub_once}
use datadog_sample_finance.Patches.Code.{literal}
use datadog_sample_finance.Patches.Engine.Lines.{is_line}
use datadog_sample_finance.Patches.Files.{header, header_for, relabel}

drop-size : (a b : Text) → drop (size a) (a ++ b) ≡ b
unfolding drop size
drop-size [] b = refl
drop-size (x ∷ a) b = drop-size a b

append_assoc : (a b c : Text) → (a ++ b) ++ c ≡ a ++ (b ++ c)
append_assoc [] b c = refl
append_assoc (x ∷ a) b c = ap (λ t. x ∷ t) (append_assoc a b c)

match-literal :
    (p : Text) (q : Pattern) (s : Text) (n : ℕ)
    → ((c : ℕ) → match q c s ≡ some n)
    → (c : ℕ) → match (literal p ++ q) c (p ++ s) ≡ some (size p + n)
unfolding match size
match-literal [] q s n h c = ground (arith, h c)
match-literal (x ∷ p) q s n h c = ground (arith, match-literal p q s n h x)

-- The rest of a line, with its newline.
line_match :
    (l s : Text) (c : ℕ)
    → is_line l ≡ true
    → match (many (λ x. not (eqb x newline)) ∷ one (eqb newline) ∷ []) c (l ++ newline ∷ s)
      ≡ some (size l + 1)
unfolding match greedy size is_line
line_match [] s c h = refl
line_match (x ∷ l) s c h = ground (arith, h, line_match l s x)

match-header :
    (sign old s : Text)
    → is_line old ≡ true
    → match (header sign) newline ((sign ++ b' ' ∷ []) ++ (old ++ newline ∷ s))
      ≡ some (size (sign ++ b' ' ∷ []) + (size old + 1))
unfolding match
match-header sign old s h =
    match-literal (sign ++ b' ' ∷ []) (many (λ x. not (eqb x newline)) ∷ one (eqb newline) ∷ [])
      (old ++ newline ∷ s) (size old + 1) (λ c. line_match old s c h) newline

size_append : (a b : Text) → size (a ++ b) ≡ size a + size b
unfolding size
size_append [] b = ground arith
size_append (x ∷ a) b = ground (arith, size_append a b)

sub_once_here :
    (takes : ℕ → Text → Option ℕ) (t : Text) (c x : ℕ) (a s : Text)
    → takes c ((x ∷ a) ++ s) ≡ some (size (x ∷ a))
    → sub_once takes (λ _. t) c ((x ∷ a) ++ s) ≡ t ++ s
unfolding sub_once size
sub_once_here takes t c x a s h = ground (arith, h, drop-size a s)

-- Inside a line, a pattern of whole lines takes nothing.
sub_once_inside :
    (p : Pattern) (f : Text → Text) (c : ℕ) (l s : Text)
    → eqb c newline ≡ false
    → is_line l ≡ true
    → sub_once (match (line_start ∷ p)) f c (l ++ newline ∷ s)
      ≡ l ++ newline ∷ sub_once (match (line_start ∷ p)) f newline s
unfolding sub_once match is_line
sub_once_inside p f c [] s e h = ground (arith, e)
sub_once_inside p f c (x ∷ l) s e h = ground (arith, e, h, sub_once_inside p f x l s)

-- A header is replaced as a whole, with its newline.
header_replaced :
    (g : ℕ) (sign old s t : Text)
    → is_line old ≡ true
    → sub_once
        (match (header (g ∷ sign)))
        (λ _. t)
        newline
        ((g ∷ sign ++ b' ' ∷ []) ++ (old ++ newline ∷ s))
      ≡ t ++ s
unfolding size
header_replaced g sign old s t h =
    let blank : Text = b' ' ∷ [] in
    let a : Text = (sign ++ blank) ++ (old ++ newline ∷ []) in
    let q : (g ∷ a) ++ s ≡ (g ∷ sign ++ blank) ++ (old ++ newline ∷ s) =
      ap (λ z. g ∷ z)
        (append_assoc (sign ++ blank) (old ++ newline ∷ []) s
          ∙ ap (λ z. (sign ++ blank) ++ z) (append_assoc old (newline ∷ []) s)) in
    let m : match (header (g ∷ sign)) newline ((g ∷ a) ++ s) ≡ some (size (g ∷ a)) =
      ap (match (header (g ∷ sign)) newline) q
      ∙ match-header (g ∷ sign) old s h
      ∙ ground (
        arith,
        size_append (sign ++ blank) (old ++ newline ∷ []),
        size_append old (newline ∷ []),
      ) in
    ap (sub_once (match (header (g ∷ sign))) (λ _. t) newline) (sym q)
    ∙ sub_once_here (match (header (g ∷ sign))) t newline g a s m

-- A line that does not begin like the header is passed over.
line_passed :
    (g x : ℕ) (sign l s : Text) (f : Text → Text)
    → eqb g x ≡ false
    → eqb x newline ≡ false
    → is_line l ≡ true
    → sub_once (match (header (g ∷ sign))) f newline ((x ∷ l) ++ newline ∷ s)
      ≡ (x ∷ l) ++ newline ∷ sub_once (match (header (g ∷ sign))) f newline s
unfolding sub_once match
line_passed g x sign l s f e i h = ground (
  arith,
  e,
  sub_once_inside
      (literal (g ∷ sign ++ b' ' ∷ []) ++ many (λ c. not (eqb c newline)) ∷ one (eqb newline) ∷ [])
      f x l s i h,
)

is_line-append : (a b : Text) → is_line a ≡ true → is_line b ≡ true → is_line (a ++ b) ≡ true
unfolding is_line
is_line-append [] b h i = i
is_line-append (x ∷ a) b h i = ground (arith, h, i, is_line-append a b)

-- The two headers that diff writes are replaced by the relative ones, and the hunks are kept as they
-- are, also where they hold lines that look like headers.
pub relabel_hunks :
    (rel : String) (old new hunks : Text)
    → is_line (codes rel) ≡ true
    → is_line old ≡ true
    → is_line new ≡ true
    → relabel rel (
        (codes "---" ++ b' ' ∷ [])
        ++ (old ++ newline ∷ ((codes "+++" ++ b' ' ∷ []) ++ (new ++ newline ∷ hunks))))
      ≡ header_for (codes "---") (codes "a/") rel
        ++ (header_for (codes "+++") (codes "b/") rel ++ hunks)
unfolding relabel is_line
relabel_hunks rel old new hunks r h i =
    let plus : Text = codes "+++" in
    let minus : Text = header_for (codes "---") (codes "a/") rel in
    let rest : Text = (plus ++ b' ' ∷ []) ++ (new ++ newline ∷ hunks) in
    let t : Text = header_for plus (codes "b/") rel in
    let l : Text = codes "-- a/" ++ codes rel in
    let q : minus ++ rest ≡ (b'-' ∷ l) ++ newline ∷ rest =
      ap (λ z. codes "--- a/" ++ z) (append_assoc (codes rel) (newline ∷ []) rest) in
    let again : (b'-' ∷ l) ++ newline ∷ (t ++ hunks) ≡ minus ++ (t ++ hunks) =
      sym (ap (λ z. codes "--- a/" ++ z) (append_assoc (codes rel) (newline ∷ []) (t ++ hunks))) in
    ap (sub_once (match (header plus)) (λ _. t) newline)
      (header_replaced b'-' (codes "--") old rest minus h ∙ q)
    ∙ line_passed b'+' b'-' (codes "++") l rest (λ _. t) refl refl
        (is_line-append (codes "-- a/") (codes rel) refl r)
    ∙ ap (λ z. (b'-' ∷ l) ++ newline ∷ z) (header_replaced b'+' (codes "++") new hunks t i)
    ∙ again
