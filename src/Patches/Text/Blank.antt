-- ===== src/Patches/Text/Blank.antt =====
-- Texts of nothing but white space, which `strip` leaves empty.
use datadog_sample_finance.Shared.{◌≡◌, refl, ap, ◌∙◌, Bool, false, not, ◌||◌, [], ◌∷◌, ◌++◌, arith}
use datadog_sample_finance.Patches.Text.{Text, is_space, is_empty, lstrip, rstrip, strip}

unfoldable pub visible : Text → Bool
visible [] = false
visible (x ∷ s) = not (is_space x) || visible s

is_empty-lstrip : (s : Text) → is_empty (lstrip s) ≡ not (visible s)
unfolding lstrip visible
is_empty-lstrip [] = refl
is_empty-lstrip (x ∷ s) = ground (arith, is_empty-lstrip s)

visible-rstrip : (s : Text) → visible (rstrip s) ≡ visible s
unfolding rstrip visible
visible-rstrip [] = refl
visible-rstrip (x ∷ s) = ground (arith, visible-rstrip s)

pub is_empty-strip : (s : Text) → is_empty (strip s) ≡ not (visible s)
is_empty-strip s = is_empty-lstrip (rstrip s) ∙ ap not (visible-rstrip s)

visible-append : (s t : Text) → visible (s ++ t) ≡ (visible s || visible t)
unfolding visible
visible-append [] t = refl
visible-append (x ∷ s) t = ground (arith, visible-append s t)

-- What stands before another text is blank when both together are.
pub is_empty-strip_append :
    (s t : Text) → is_empty (strip s) ≡ false → is_empty (strip (s ++ t)) ≡ false
is_empty-strip_append s t h =
    ground (arith, h, is_empty-strip s, is_empty-strip (s ++ t), visible-append s t)
