-- ===== src/Base/Order.antt =====
-- The order of texts: `Ord for str` is a linear order.
use Prim.Native.Nat.{Ordering}
use mathlib.Core.Path.{◌≡◌, refl}
use mathlib.Core.List.{◌++◌, [], ◌∷◌}
use opto_sync_clients.Base.Lists.{length}
use native.Mathlib.Omega.{arith}
use opto_sync_clients.Base.Strings.{Text, text_compare}

abbrev pub flipped : Ordering → Ordering
flipped Ordering.lt = Ordering.gt
flipped Ordering.eq = Ordering.eq
flipped Ordering.gt = Ordering.lt

pub text_compare_flip : (xs ys : Text) → text_compare ys xs ≡ flipped (text_compare xs ys)
unfolding text_compare
text_compare_flip [] [] = refl
text_compare_flip [] (y ∷ ys) = refl
text_compare_flip (x ∷ xs) [] = refl
text_compare_flip (x ∷ xs) (y ∷ ys) = ground (arith, text_compare_flip xs ys)

pub text_compare_trans :
    (xs ys zs : Text)
    → text_compare xs ys ≡ Ordering.lt
    → text_compare ys zs ≡ Ordering.lt
    → text_compare xs zs ≡ Ordering.lt
unfolding text_compare
text_compare_trans [] [] zs h k = cc
text_compare_trans [] (y ∷ ys) [] h k = cc
text_compare_trans [] (y ∷ ys) (z ∷ zs) h k = refl
text_compare_trans (x ∷ xs) [] zs h k = cc
text_compare_trans (x ∷ xs) (y ∷ ys) [] h k = cc
text_compare_trans (x ∷ xs) (y ∷ ys) (z ∷ zs) h k = ground (arith, text_compare_trans xs ys zs)

-- `Ordering::then`.
abbrev pub and_then : Ordering → Ordering → Ordering
and_then Ordering.eq o = o
and_then o _ = o

pub compare-append :
    (xs ys us vs : Text)
    → length xs ≡ length ys
    → text_compare (xs ++ us) (ys ++ vs) ≡ and_then (text_compare xs ys) (text_compare us vs)
unfolding text_compare
compare-append [] [] us vs h = refl
compare-append [] (y ∷ ys) us vs h = absurd (omega arith)
compare-append (x ∷ xs) [] us vs h = absurd (omega arith)
compare-append (x ∷ xs) (y ∷ ys) us vs h = ground (arith, compare-append xs ys us vs (omega arith))
