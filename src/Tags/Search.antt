-- ===== src/Tags/Search.antt =====
-- The last occurrence of a character: where it lies, and what appending and cutting leave of it.
use bhtune.Common.{
  ℕ, zero, suc, ◌≡◌, refl, sym, ap, subst, inl, inr, [], ◌∷◌, ◌++◌, none, some, Option-cases, ◌==◌,
  if◌then◌else◌, take, arith,
}
use bhtune.Common.Text.{Text}
use bhtune.Tags.{rfind}

none-some : {A : Type 0} {a : A} → none ≡ some a → ⊥
none-some h = cc

here : (x c i : ℕ) (s : Text) → rfind c s ≡ none → rfind c (x ∷ s) ≡ some i → (x ≡ c) × (i ≡ 0)
unfolding rfind
here x c i s e h = ground arith

further : (x c i j : ℕ) (s : Text) → rfind c s ≡ some j → rfind c (x ∷ s) ≡ some i → suc j ≡ i
unfolding rfind
further x c i j s e h = ground arith

-- An occurrence found last has none behind it.
pub rfind-some :
    (c : ℕ) (s : Text) (i : ℕ)
    → rfind c s ≡ some i
    → (head : Text) × (rest : Text) × (s ≡ head ++ (c ∷ rest))
      × (take (suc i) s ≡ head ++ (c ∷ []))
      × (rfind c rest ≡ none)
unfolding rfind
rfind-some c [] i h = absurd (none-some h)
rfind-some c (x ∷ s) i h = elim (Option-cases (rfind c s)) [
  | inl e ↦ at_head e (here x c i s e h)
  | inr (j, e) ↦
      let (head, rest, whole, cut, last) = rfind-some c s j e in
      (
        x ∷ head,
        rest,
        ap (◌∷◌ x) whole,
        subst (λ k. take (suc k) (x ∷ s) ≡ x ∷ (head ++ (c ∷ []))) (further x c i j s e h)
            (ap (◌∷◌ x) cut),
        last,
      )
]
  where
    at_head :
        rfind c s ≡ none
        → (x ≡ c) × (i ≡ 0)
        → (head : Text) × (rest : Text) × (x ∷ s ≡ head ++ (c ∷ rest))
          × (take (suc i) (x ∷ s) ≡ head ++ (c ∷ []))
          × (rfind c rest ≡ none)
    at_head e (same, first) = (
      [],
      s,
      ap (λ y. y ∷ s) same,
      subst (λ k. take (suc k) (x ∷ s) ≡ c ∷ []) (sym first) (ap (λ y. y ∷ []) same),
      e,
    )

pub rfind-append : (c : ℕ) (xs ys : Text) → rfind c ys ≡ none → rfind c (xs ++ ys) ≡ rfind c xs
unfolding rfind
rfind-append c [] ys h = h
rfind-append c (x ∷ xs) ys h =
    ap (λ r. elim r [ some i ↦ some (suc i) | none ↦ if x == c then some 0 else none ])
      (rfind-append c xs ys h)

pub rfind-take : (c : ℕ) (s : Text) (i : ℕ) → rfind c s ≡ some i → rfind c (take (suc i) s) ≡ some i
unfolding rfind
rfind-take c [] i h = h
rfind-take c (x ∷ s) zero h = ground arith
rfind-take c (x ∷ s) (suc i) h = ground (arith, rfind-take c s i)

pub rfind-take-none : (c : ℕ) (s : Text) (n : ℕ) → rfind c s ≡ none → rfind c (take n s) ≡ none
unfolding rfind
rfind-take-none c s zero h = refl
rfind-take-none c [] (suc n) h = refl
rfind-take-none c (x ∷ s) (suc n) h = ground (arith, rfind-take-none c s n)

pub take-take-append :
    (c : ℕ) (s t : Text) (i : ℕ)
    → rfind c s ≡ some i
    → take (suc i) (take (suc i) s ++ t) ≡ take (suc i) s
unfolding rfind
take-take-append c [] t i h = absurd (none-some h)
take-take-append c (x ∷ s) t zero h = refl
take-take-append c (x ∷ s) t (suc i) h = ap (◌∷◌ x) (take-take-append c s t i (ground arith))
