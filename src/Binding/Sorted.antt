-- ===== src/Binding/Sorted.antt =====
-- The sort of the selected headers by name (src/binding.ts).
use mathlib.Core.List.{Permᴰ}
use mathlib.Core.List.Permᴰ
use x402_base_evidence.Binding.Headers.{SelectedHeader, text_lt, insert, sort_by_name}
use x402_base_evidence.Binding.Order.{
  named, named-Perm, IsDistinct, tail-IsDistinct, text_lt_trans, text_lt-connex,
}
use x402_base_evidence.Common.{
  ◌≡◌, refl, sym, ◌∙◌, inl, inr, arith, true, false, List, [], ◌∷◌, Text, eq_text_refl, eq_text_iff,
  Bool-cases, All, ℕ, ◌<◌, ltb, subst,
}

-- One text precedes another in the order of their code units: it is a proper prefix, or it has the
-- smaller unit at the first place where they differ.
pub data Precedes : Text → Text → Type 0 where
  prefix : (y : ℕ) (b : Text) → Precedes [] (y ∷ b)
  smaller : (x y : ℕ) (a b : Text) → x < y → Precedes (x ∷ a) (y ∷ b)
  later : (x : ℕ) (a b : Text) → Precedes a b → Precedes (x ∷ a) (x ∷ b)

-- The names strictly ascend: every header precedes all that follow it.
abbrev pub IsAscending : List SelectedHeader → Type 0
IsAscending [] = Unit
IsAscending (h ∷ hs) = All (λ (k : SelectedHeader). Precedes h.name k.name) hs × IsAscending hs

text_lt-Precedes : (a b : Text) → text_lt a b ≡ true → Precedes a b
unfolding text_lt
text_lt-Precedes [] [] h = absurd (ground arith)
text_lt-Precedes [] (y ∷ b) h = prefix y b
text_lt-Precedes (x ∷ a) [] h = absurd (ground arith)
text_lt-Precedes (x ∷ a) (y ∷ b) h = elim (Bool-cases (ltb x y)) [
  | inl e ↦ smaller x y a b (ground arith)
  | inr e ↦
      let same : x ≡ y = ground arith in
      subst (λ z. Precedes (x ∷ a) (z ∷ b)) same (later x a b (text_lt-Precedes a b (ground arith)))
]

-- Every header is before all that follow it, by its name.
abbrev IsSorted : List SelectedHeader → Type 0
IsSorted [] = Unit
IsSorted (h ∷ hs) = All (λ (k : SelectedHeader). text_lt h.name k.name ≡ true) hs × IsSorted hs

insert-Perm : (h : SelectedHeader) (l : List SelectedHeader) → Permᴰ (h ∷ l) (insert h l)
unfolding insert
insert-Perm h [] = Permᴰ.refl (h ∷ [])
insert-Perm h (k ∷ l) = elim (Bool-cases (text_lt k.name h.name)) [
  | inl e ↦ rw e (Permᴰ.trans (Permᴰ.swap refl refl) (Permᴰ.cons refl (insert-Perm h l)))
  | inr e ↦ rw e (Permᴰ.refl (h ∷ k ∷ l))
]

-- The sort keeps the headers.
pub sort_by_name-perm : (hs : List SelectedHeader) → Permᴰ hs (sort_by_name hs)
unfolding sort_by_name
sort_by_name-perm [] = Permᴰ.nil
sort_by_name-perm (h ∷ hs) =
    Permᴰ.trans (Permᴰ.cons refl (sort_by_name-perm hs)) (insert-Perm h (sort_by_name hs))

All-insert :
    (P : SelectedHeader → Type 0) (h : SelectedHeader) (l : List SelectedHeader)
    → P h
    → All P l
    → All P (insert h l)
unfolding insert
All-insert P h [] p a = (p, tt)
All-insert P h (k ∷ l) p (q, a) = elim (Bool-cases (text_lt k.name h.name)) [
  | inl e ↦ rw e (q, All-insert P h l p a)
  | inr e ↦ rw e (p, (q, a))
]

All-later :
    (a b : Text) (l : List SelectedHeader)
    → text_lt a b ≡ true
    → All (λ (k : SelectedHeader). text_lt b k.name ≡ true) l
    → All (λ (k : SelectedHeader). text_lt a k.name ≡ true) l
All-later a b [] h t = tt
All-later a b (k ∷ l) h (p, t) = (text_lt_trans a b k.name h p, All-later a b l h t)

insert-IsSorted :
    (h : SelectedHeader) (l : List SelectedHeader)
    → named h.name l ≡ 0
    → IsSorted l
    → IsSorted (insert h l)
unfolding insert named
insert-IsSorted h [] n s = (tt, tt)
insert-IsSorted h (k ∷ l) n (first, s) = elim (Bool-cases (text_lt k.name h.name)) [
  | inl e ↦ rw e (
    All-insert (λ (x : SelectedHeader). text_lt k.name x.name ≡ true) h l e first,
    insert-IsSorted h l (ground arith) s,
  )
  | inr e ↦
      let before = less h k l n e in
      rw e ((before, All-later h.name k.name l before first), (first, s))
]
  where
    less :
        (h k : SelectedHeader) (l : List SelectedHeader)
        → named h.name (k ∷ l) ≡ 0
        → text_lt k.name h.name ≡ false
        → text_lt h.name k.name ≡ true
    less h k l n e = ground (arith, text_lt-connex k.name h.name, eq_text_iff k.name h.name)

sort_by_name-IsSorted : (hs : List SelectedHeader) → IsDistinct hs → IsSorted (sort_by_name hs)
unfolding sort_by_name named
sort_by_name-IsSorted [] d = tt
sort_by_name-IsSorted (h ∷ hs) d =
    insert-IsSorted h (sort_by_name hs)
      (sym (named-Perm h.name (sort_by_name-perm hs))
        ∙ ground (arith, d h.name, eq_text_refl h.name))
      (sort_by_name-IsSorted hs (tail-IsDistinct h hs d))

All-Precedes :
    (t : Text) (l : List SelectedHeader)
    → All (λ (k : SelectedHeader). text_lt t k.name ≡ true) l
    → All (λ (k : SelectedHeader). Precedes t k.name) l
All-Precedes t [] a = tt
All-Precedes t (k ∷ l) (h, a) = (text_lt-Precedes t k.name h, All-Precedes t l a)

IsSorted-IsAscending : (l : List SelectedHeader) → IsSorted l → IsAscending l
IsSorted-IsAscending [] s = tt
IsSorted-IsAscending (h ∷ l) (first, s) = (All-Precedes h.name l first, IsSorted-IsAscending l s)

-- Distinct headers come out in strictly ascending order.
pub sort_by_name-IsAscending :
    (hs : List SelectedHeader) → IsDistinct hs → IsAscending (sort_by_name hs)
sort_by_name-IsAscending hs d = IsSorted-IsAscending (sort_by_name hs) (sort_by_name-IsSorted hs d)
