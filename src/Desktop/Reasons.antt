-- ===== src/Desktop/Reasons.antt =====
-- The wake reasons of a run of clients/desktop-rust/src/lib.rs, sorted and without repetition.
use opto_sync_clients.Base.{
  leb_gt, leb_le, ap, ==_iff, ◌∙◌, ◌+◌, ℕ, ◌≡◌, ◌≤◌, ◌⊎◌, inl, inr, refl, Bool, true, ◌||◌, List,
  [], ◌∷◌, any, arith, Bool-cases, leb, ◌==◌,
}
use opto_sync_clients.Desktop.Runner.{
  DesktopWakeReason, rank, insert_reason, sort_reasons, dedup, normalized, manual, or_manual,
}

abbrev pub has : DesktopWakeReason → List DesktopWakeReason → Bool
has r rs = any (λ s. rank s == rank r) rs

-- Ranks rise: weakly above `lo`, strictly from one to the next in `Rising`.
abbrev Sorted : ℕ → List DesktopWakeReason → Type 0
Sorted lo [] = Unit {0}
Sorted lo (r ∷ rs) = (lo ≤ rank r) × Sorted (rank r) rs

abbrev pub Rising : ℕ → List DesktopWakeReason → Type 0
Rising lo [] = Unit {0}
Rising lo (r ∷ rs) = (lo ≤ rank r) × Rising (rank r + 1) rs

insert-Sorted :
    (lo : ℕ) (r : DesktopWakeReason) (rs : List DesktopWakeReason)
    → lo ≤ rank r
    → Sorted lo rs
    → Sorted lo (insert_reason r rs)
unfolding insert_reason
insert-Sorted lo r [] h s = (h, tt)
insert-Sorted lo r (t ∷ rs) h (l, s) = elim (Bool-cases (leb (rank r) (rank t))) [
  | inl le ↦ rw le (h, (leb_le (rank r) (rank t) le, s))
  | inr gt ↦ rw gt (l, insert-Sorted (rank t) r rs (omega (arith, leb_gt (rank r) (rank t) gt)) s)
]

sort-Sorted : (rs : List DesktopWakeReason) → Sorted 0 (sort_reasons rs)
unfolding sort_reasons
sort-Sorted [] = tt
sort-Sorted (r ∷ rs) = insert-Sorted 0 r (sort_reasons rs) (omega arith) (sort-Sorted rs)

dedup-Rising : (lo : ℕ) (rs : List DesktopWakeReason) → Sorted lo rs → Rising lo (dedup rs)
unfolding dedup
dedup-Rising lo [] s = tt
dedup-Rising lo (r ∷ []) (l, s) = (l, tt)
dedup-Rising lo (r ∷ t ∷ rs) (l, (l', s)) = elim (Bool-cases (rank r == rank t)) [
  | inl same ↦ rw same (dedup-Rising lo (t ∷ rs) (omega arith, s))
  | inr other ↦ rw other (l, dedup-Rising (rank r + 1) (t ∷ rs) (ground arith, s))
]

or_swap : (a b c : Bool) → (a || (b || c)) ≡ (b || (a || c))
or_swap a b c = ground arith

absorb : (a b q : ℕ) (c : Bool) → (a == b) ≡ true → (b == q || c) ≡ (a == q || (b == q || c))
absorb a b q c h = ground arith

has-insert :
    (q r : DesktopWakeReason) (rs : List DesktopWakeReason)
    → has q (insert_reason r rs) ≡ (rank r == rank q || has q rs)
unfolding insert_reason
has-insert q r [] = refl
has-insert q r (t ∷ rs) = elim (Bool-cases (leb (rank r) (rank t))) [
  | inl le ↦ rw le refl
  | inr gt ↦
      rw gt (rw (has-insert q r rs) (or_swap (rank t == rank q) (rank r == rank q) (has q rs)))
]

has-sort :
    (q : DesktopWakeReason) (rs : List DesktopWakeReason) → has q (sort_reasons rs) ≡ has q rs
unfolding sort_reasons
has-sort q [] = refl
has-sort q (r ∷ rs) =
    has-insert q r (sort_reasons rs) ∙ ap (λ b. rank r == rank q || b) (has-sort q rs)

has-dedup : (q : DesktopWakeReason) (rs : List DesktopWakeReason) → has q (dedup rs) ≡ has q rs
unfolding dedup
has-dedup q [] = refl
has-dedup q (r ∷ []) = refl
has-dedup q (r ∷ t ∷ rs) = elim (Bool-cases (rank r == rank t)) [
  | inl same ↦ rw same (has-dedup q (t ∷ rs) ∙ absorb (rank r) (rank t) (rank q) (has q rs) same)
  | inr other ↦ rw other (ap (λ b. rank r == rank q || b) (has-dedup q (t ∷ rs)))
]

self : (r : DesktopWakeReason) (rs : List DesktopWakeReason) → has r (r ∷ rs) ≡ true
self r rs = rw ((==_iff (rank r) (rank r)).1 refl) refl

or_manual-lem :
    (reasons rs : List DesktopWakeReason)
    → Rising 0 rs
    → ((q : DesktopWakeReason) → has q rs ≡ has q reasons)
    → Rising 0 (or_manual rs)
      × ((reasons ≡ []) × (or_manual rs ≡ manual ∷ [])
          ⊎ ((q : DesktopWakeReason) → has q (or_manual rs) ≡ has q reasons))
unfolding or_manual
or_manual-lem [] [] s same = ((omega arith, tt), inl (refl, refl))
or_manual-lem (r ∷ rest) [] s same = absurd (ground (arith, same r, self r rest))
or_manual-lem reasons (r ∷ rs) s same = (s, inr same)

-- A run reports each reason it was given once, in order, and nothing else; without a reason it
-- reports a manual wake.
pub normalized_lem :
    (reasons : List DesktopWakeReason)
    → Rising 0 (normalized reasons)
      × ((reasons ≡ []) × (normalized reasons ≡ manual ∷ [])
          ⊎ ((q : DesktopWakeReason) → has q (normalized reasons) ≡ has q reasons))
unfolding normalized
normalized_lem reasons =
    or_manual-lem reasons (dedup (sort_reasons reasons))
      (dedup-Rising 0 (sort_reasons reasons) (sort-Sorted reasons))
      (λ q. has-dedup q (sort_reasons reasons) ∙ has-sort q reasons)
