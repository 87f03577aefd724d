-- ===== src/Patches/Files/Effects.antt =====
-- What the helpers of scripts/generate-patches.py do to one patch file.
use datadog_sample_finance.Shared.{
  String, ◌≡◌, refl, subst, sym, ap, ◌∙◌, Bool, true, false, Option, none, some, eqb, if◌then◌else◌,
  ◌==◌, arith,
}
use datadog_sample_finance.Shared.Dict.{lookup, lookup-insert, lookup-remove}
use datadog_sample_finance.Python.{Io, Result, ok, raised, pure, ◌>>=◌}
use datadog_sample_finance.Patches.Text.{Text, strip, is_empty}
use datadog_sample_finance.Patches.Files.{
  Ran, Tools, Report, World, print, write_patch, append_to, append_patch, relabel, record_diff,
  reset_patch, read, diff_failed, no_diff, appended, wrote, append_diff_from_strings, append_diff,
  make_patch, dry_run,
}

-- How a run from `w` has ended: without an exception, and with at most the patch `name` changed, as
-- `f` says.
abbrev pub Ends :
    {A : Type 0} → Result A × World → World → String → (Option Text → Option Text) → Type 0
Ends {A} r w name f =
    ((a : A) × (r.0 ≡ ok a))
    × ((n : String)
        → lookup n r.1.patches ≡ (if n == name then f (lookup n w.patches) else lookup n w.patches))

abbrev pub Updates : {A : Type 0} → Io World A → String → (Option Text → Option Text) → Type 0
Updates m name f = (w : World) → Ends (m w) w name f

pub bind_ok :
    {A B : Type 0} (m : Io World A) (k : A → Io World B) (w : World) (a : A)
    → (m w).0 ≡ ok a
    → (m >>= k) w ≡ k a (m w).1
bind_ok {A} {B} m k w a e =
    let next : Result A → Result B × World =
      λ r. elim r [ ok a ↦ k a (m w).1 | raised e ↦ (raised e, (m w).1) ] in
    ap next e

pub bind-Updates :
    {A B : Type 0} (m : Io World A) (k : A → Io World B) (name : String)
    (f g : Option Text → Option Text)
    → Updates m name f
    → ((a : A) → Updates (k a) name g)
    → Updates (m >>= k) name (λ o. g (f o))
bind-Updates m k name f g hm hk w =
    let ((a, e), l) = hm w in
    let (t, l') = hk a (m w).1 in
    subst (λ r. Ends r w name (λ o. g (f o))) (sym (bind_ok m k w a e))
      (t, λ n. l' n ∙ ground (arith, l n))

-- A step after one that changes nothing and yields `a`.
pub pure-Updates :
    {A B : Type 0} (m : Io World A) (k : A → Io World B) (name : String)
    (f : Option Text → Option Text) (a : A)
    → ((w : World) → m w ≡ (ok a, w))
    → Updates (k a) name f
    → Updates (m >>= k) name f
pure-Updates m k name f a e hk w =
    subst (λ r. Ends r w name f)
      (sym (bind_ok m k w a (ap (λ r. r.0) (e w)) ∙ ap (λ r. k a r.1) (e w))) (hk w)

pub read_lem :
    (T : Tools) (rel : String) (c : Text)
    → Tools.files T rel ≡ some c
    → (w : World) → read T rel w ≡ (ok c, w)
unfolding read
read_lem T rel c h w = ground (arith, h)

pub print-Updates : (r : Report) (name : String) → Updates (print r) name (λ o. o)
print-Updates r name w = ((tt, refl), λ n. ground arith)

pub dry_run-Updates : (T : Tools) (p name : String) → Updates (dry_run T p) name (λ o. o)
unfolding dry_run
dry_run-Updates T p name w = ((_, refl), λ n. ground arith)

pub reset_patch-Updates : (name : String) → Updates (reset_patch name) name (λ o. none)
unfolding reset_patch
reset_patch-Updates name w = ((tt, refl), λ n. lookup-remove n name w.patches)

-- What a difference brings to a patch: nothing where diff failed or found nothing.
abbrev pub labelled : Ran → String → Option Text
labelled ran rel =
    if eqb ran.returncode 2
    then none
    else if is_empty (strip ran.stdout)
    then none
    else some (relabel rel ran.stdout)

abbrev pub contribution : Tools → String → Text → Text → Option Text
contribution T rel original patched = labelled (Tools.diff T (some original) patched) rel

-- A patch with one more difference.
abbrev pub add : Option Text → Option Text → Option Text
add o none = o
add o (some c) = some (append_to o c)

-- A patch written anew.
abbrev pub put : Option Text → Option Text → Option Text
put o none = o
put o (some c) = some c

pub write_patch-Updates :
    (name : String) (c : Text) → Updates (write_patch name c) name (λ o. some c)
write_patch-Updates name c w = ((tt, refl), λ n. ground (arith, lookup-insert n name c w.patches))

append_patch-Updates :
    (name : String) (c : Text) → Updates (append_patch name c) name (λ o. add o (some c))
append_patch-Updates name c w = (
  (tt, refl),
  λ n. ground (arith, lookup-insert n name (append_to (lookup name w.patches) c) w.patches),
)

saved_if :
    (ran : Ran) (rel shown name : String) (save : Io World (Unit {0}))
    (step : Option Text → Option Text → Option Text)
    → ((o : Option Text) → step o none ≡ o)
    → Updates save name (λ o. step o (some (relabel rel ran.stdout)))
    → (b c : Bool)
    → Updates
        (if b
          then (print (diff_failed rel) >>= λ _. pure false)
          else if c
          then (print (no_diff shown) >>= λ _. pure false)
          else (save >>= λ _. pure true))
        name
        (λ o. step o (if b then none else if c then none else some (relabel rel ran.stdout)))
saved_if ran rel shown name save step keeps saves true c w =
    ((false, refl), λ n. ground (arith, keeps (lookup n w.patches)))
saved_if ran rel shown name save step keeps saves false true w =
    ((false, refl), λ n. ground (arith, keeps (lookup n w.patches)))
saved_if ran rel shown name save step keeps saves false false w =
    bind-Updates save (λ _. pure true) name (λ o. step o (some (relabel rel ran.stdout))) (λ o. o)
      saves (λ _ w. ((true, refl), λ n. ground arith)) w

-- `step` tells what a difference makes of the patch, when `save` is what saves it.
record_diff-Updates :
    (ran : Ran) (rel shown name : String) (save : Io World (Unit {0}))
    (step : Option Text → Option Text → Option Text)
    → ((o : Option Text) → step o none ≡ o)
    → Updates save name (λ o. step o (some (relabel rel ran.stdout)))
    → Updates (record_diff ran rel shown save) name (λ o. step o (labelled ran rel))
record_diff-Updates ran rel shown name save step keeps saves =
    saved_if ran rel shown name save step keeps saves (eqb ran.returncode 2)
      (is_empty (strip ran.stdout))

module _ (rel name : String) (ran : Ran) where
  then_print :
      (save : Io World (Unit {0})) (r : Report) (f : Option Text → Option Text)
      → Updates save name f
      → Updates (save >>= λ _. print r) name f
  then_print save r f h =
      bind-Updates save (λ _. print r) name f (λ o. o) h (λ _. print-Updates r name)

  abbrev save_more : Io World (Unit {0})
  save_more = append_patch name (relabel rel ran.stdout) >>= λ _. print (appended rel name)

  save_more-Updates :
      Updates (record_diff ran rel rel save_more) name (λ o. add o (labelled ran rel))
  save_more-Updates =
      record_diff-Updates ran rel rel name save_more add (λ o. refl)
        (then_print (append_patch name (relabel rel ran.stdout)) (appended rel name)
          (λ o. add o (some (relabel rel ran.stdout)))
          (append_patch-Updates name (relabel rel ran.stdout)))

  abbrev save_new : Io World (Unit {0})
  save_new = write_patch name (relabel rel ran.stdout) >>= λ _. print (wrote rel name)

  save_new-Updates :
      Updates (record_diff ran rel name save_new) name (λ o. put o (labelled ran rel))
  save_new-Updates =
      record_diff-Updates ran rel name name save_new put (λ o. refl)
        (then_print (write_patch name (relabel rel ran.stdout)) (wrote rel name)
          (λ o. some (relabel rel ran.stdout)) (write_patch-Updates name (relabel rel ran.stdout)))

module _ (T : Tools) (rel name : String) (patched : Text) where
  pub append_diff_from_strings-Updates :
      (c : Text)
      → Updates
          (append_diff_from_strings T rel c patched name)
          name
          (λ o. add o (contribution T rel c patched))
  unfolding append_diff_from_strings
  append_diff_from_strings-Updates c = save_more-Updates rel name (Tools.diff T (some c) patched)

  pub append_diff-Updates :
      (c : Text)
      → Tools.files T rel ≡ some c
      → Updates (append_diff T rel patched name) name (λ o. add o (contribution T rel c patched))
  unfolding append_diff
  append_diff-Updates c h =
      subst
        (λ s.
          Updates (append_diff T rel patched name) name
            (λ o. add o (labelled (Tools.diff T s patched) rel)))
        h (save_more-Updates rel name (Tools.diff T (Tools.files T rel) patched))

  pub make_patch-Updates :
      (c : Text)
      → Tools.files T rel ≡ some c
      → Updates (make_patch T rel patched name) name (λ o. put o (contribution T rel c patched))
  unfolding make_patch
  make_patch-Updates c h =
      subst
        (λ s.
          Updates (make_patch T rel patched name) name
            (λ o. put o (labelled (Tools.diff T s patched) rel)))
        h (save_new-Updates rel name (Tools.diff T (Tools.files T rel) patched))
