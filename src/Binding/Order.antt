-- ===== src/Binding/Order.antt =====
-- The order of the selected headers, and their repeated names (src/binding.ts).
use mathlib.Core.List.{Permᴰ}
use x402_base_evidence.Binding.Headers.{
  SelectedHeader, NameCount, bump, count_names, duplicate_of, refuse_repeated, check_duplicates,
  text_lt, insert, sort_by_name, BindingProblem,
}
use x402_base_evidence.Common.{
  ℕ, suc, ◌+◌, ◌≤◌, ◌≡◌, refl, sym, ap, ◌∙◌, inl, inr, ◌↔◌, ◌≢◌, arith, true, false, List, [], ◌∷◌,
  ltb, if◌then◌else◌, Text, eq_text, eq_text_iff, eq_text_refl, Bool-cases, All, subst,
}
use x402_base_evidence.Common.Except.{ok, err, err-injective}

text_lt_irrefl : (a : Text) → text_lt a a ≡ false
unfolding text_lt
text_lt_irrefl [] = refl
text_lt_irrefl (x ∷ a) = ground (arith, text_lt_irrefl a)

text_lt-asymm : (a b : Text) → text_lt a b ≡ true → text_lt b a ≡ false
unfolding text_lt
text_lt-asymm [] [] h = refl
text_lt-asymm [] (y ∷ b) h = refl
text_lt-asymm (x ∷ a) [] h = absurd (ground arith)
text_lt-asymm (x ∷ a) (y ∷ b) h = ground (arith, text_lt-asymm a b)

pub text_lt_trans : (a b c : Text) → text_lt a b ≡ true → text_lt b c ≡ true → text_lt a c ≡ true
unfolding text_lt
text_lt_trans [] [] c h k = k
text_lt_trans [] (y ∷ b) [] h k = absurd (ground arith)
text_lt_trans [] (y ∷ b) (z ∷ c) h k = refl
text_lt_trans (x ∷ a) [] c h k = absurd (ground arith)
text_lt_trans (x ∷ a) (y ∷ b) [] h k = absurd (ground arith)
text_lt_trans (x ∷ a) (y ∷ b) (z ∷ c) h k = ground (arith, text_lt_trans a b c)

pub text_lt-connex : (a b : Text) → text_lt a b ≡ false → text_lt b a ≡ false → a ≡ b
unfolding text_lt
text_lt-connex [] [] h k = refl
text_lt-connex [] (y ∷ b) h k = absurd (ground arith)
text_lt-connex (x ∷ a) [] h k = absurd (ground arith)
text_lt-connex (x ∷ a) (y ∷ b) h k = ground (arith, text_lt-connex a b)

-- If `a` is less than `b`, what is not less than `b` is not less than `a`.
text_lt-lower : (a b k : Text) → text_lt a b ≡ true → text_lt k b ≡ false → text_lt k a ≡ false
text_lt-lower a b k h n = elim (Bool-cases (text_lt k a)) [
  | inl l ↦ ground (arith, text_lt_trans k a b)
  | inr g ↦ g
]

insert_comm_of_lt :
    (a b : SelectedHeader) (l : List SelectedHeader)
    → text_lt a.name b.name ≡ true
    → insert a (insert b l) ≡ insert b (insert a l)
unfolding insert
insert_comm_of_lt a b [] h = ground (arith, text_lt-asymm a.name b.name)
insert_comm_of_lt a b (k ∷ ks) h = ground (
  arith,
  text_lt-asymm a.name b.name,
  text_lt_trans k.name a.name b.name,
  text_lt-lower a.name b.name k.name,
  insert_comm_of_lt a b ks,
)

insert_comm :
    (a b : SelectedHeader) (l : List SelectedHeader)
    → a.name ≢ b.name
    → insert a (insert b l) ≡ insert b (insert a l)
insert_comm a b l ne = elim (Bool-cases (text_lt a.name b.name)) [
  | inl h ↦ insert_comm_of_lt a b l h
  | inr g ↦ elim (Bool-cases (text_lt b.name a.name)) [
    | inl h ↦ sym (insert_comm_of_lt b a l h)
    | inr k ↦ absurd (ne (text_lt-connex a.name b.name g k))
  ]
]

-- How many headers have the name.
unfoldable pub named : Text → List SelectedHeader → ℕ
named n [] = 0
named n (h ∷ hs) = if eq_text h.name n then suc (named n hs) else named n hs

-- No name is there twice.
abbrev pub IsDistinct : List SelectedHeader → Type 0
IsDistinct hs = (n : Text) → named n hs ≤ 1

pub named-Perm : {hs ks : List SelectedHeader} (n : Text) → Permᴰ hs ks → named n hs ≡ named n ks
unfolding named
named-Perm n Permᴰ.nil = refl
named-Perm n (Permᴰ.cons e p) = rw e (ground (arith, named-Perm n p))
named-Perm n (Permᴰ.swap e f) = rw (e, f) (ground arith)
named-Perm n (Permᴰ.trans p q) = named-Perm n p ∙ named-Perm n q

pub tail-IsDistinct :
    (h : SelectedHeader) (hs : List SelectedHeader) → IsDistinct (h ∷ hs) → IsDistinct hs
unfolding named
tail-IsDistinct h hs d n = ground (arith, d n)

head-two :
    (a b : SelectedHeader) (l : List SelectedHeader) → IsDistinct (a ∷ b ∷ l) → a.name ≢ b.name
unfolding named
head-two a b l d e = ground (arith, d b.name, eq_text_refl b.name, (eq_text_iff a.name b.name).1 e)

-- The sort depends on the headers, not on their order.
pub sort_by_name-Perm :
    {hs ks : List SelectedHeader} → Permᴰ hs ks → IsDistinct hs → sort_by_name hs ≡ sort_by_name ks
unfolding sort_by_name
sort_by_name-Perm Permᴰ.nil d = refl
sort_by_name-Perm (Permᴰ.cons {a} {b} {l₁} e p) d =
    rw e (ap (insert b) (sort_by_name-Perm p (tail-IsDistinct a l₁ d)))
sort_by_name-Perm (Permᴰ.swap {a} {b} {a'} {b'} {l} e f) d =
    insert_comm a b (sort_by_name l) (head-two a b l d) ∙ rw (e, f) refl
sort_by_name-Perm (Permᴰ.trans p q) d =
    sort_by_name-Perm p d ∙ sort_by_name-Perm q (λ n. subst (λ c. c ≤ 1) (named-Perm n p) (d n))

count_of : Text → List NameCount → ℕ
count_of m [] = 0
count_of m (c ∷ cs) = if eq_text c.name m then c.count else count_of m cs

count_of-nil : (m : Text) → count_of m [] ≡ 0
unfolding count_of
count_of-nil m = refl

count_of-bump :
    (m n : Text) (cs : List NameCount)
    → count_of m (bump n cs) ≡ (if eq_text n m then suc (count_of m cs) else count_of m cs)
unfolding count_of bump
count_of-bump m n [] = refl
count_of-bump m n (c ∷ cs) = elim (Bool-cases (eq_text c.name n)) [
  | inl e ↦ ground (arith, eq_text_iff c.name n, eq_text_iff c.name m, eq_text_iff n m)
  | inr e ↦
      ground (arith, count_of-bump m n cs, eq_text_iff c.name m, eq_text_iff n m, eq_text_refl m)
]

count_of-count_names :
    (m : Text) (hs : List SelectedHeader) (cs : List NameCount)
    → count_of m (count_names hs cs) ≡ count_of m cs + named m hs
unfolding count_names named
count_of-count_names m [] cs = ground arith
count_of-count_names m (h ∷ hs) cs =
    ground (arith, count_of-count_names m hs (bump h.name cs), count_of-bump m h.name cs)

abbrev IsBelow : (Text → ℕ) → List NameCount → Type 0
IsBelow f cs = All (λ (c : NameCount). c.count ≤ f c.name) cs

weaken-IsBelow :
    (f g : Text → ℕ) (cs : List NameCount) → ((m : Text) → f m ≤ g m) → IsBelow f cs → IsBelow g cs
weaken-IsBelow f g [] k h = tt
weaken-IsBelow f g (c ∷ cs) k (p, h) = (omega (arith, k c.name), weaken-IsBelow f g cs k h)

abbrev plus : (Text → ℕ) → Text → Text → ℕ
plus f n m = if eq_text n m then suc (f m) else f m

bump-IsBelow :
    (f : Text → ℕ) (n : Text) (cs : List NameCount) → IsBelow f cs → IsBelow (plus f n) (bump n cs)
unfolding bump
bump-IsBelow f n [] h = (rw (eq_text_refl n) (omega arith), tt)
bump-IsBelow f n (c ∷ cs) (p, h) = elim (Bool-cases (eq_text c.name n)) [
  | inl e ↦
      let same = (eq_text_iff c.name n).0 e in
      rw e (
        ground (arith, eq_text_refl n, eq_text_iff n c.name),
        weaken-IsBelow f (plus f n) cs (λ m. ground arith) h,
      )
  | inr e ↦ rw e (ground arith, bump-IsBelow f n cs h)
]

count_names-IsBelow :
    (f g : Text → ℕ) (hs : List SelectedHeader) (cs : List NameCount)
    → ((m : Text) → f m + named m hs ≤ g m)
    → IsBelow f cs
    → IsBelow g (count_names hs cs)
unfolding count_names named
count_names-IsBelow f g [] cs k h = weaken-IsBelow f g cs (λ m. ground (arith, k m)) h
count_names-IsBelow f g (x ∷ hs) cs k h =
    count_names-IsBelow (plus f x.name) g hs (bump x.name cs) (λ m. ground (arith, k m))
      (bump-IsBelow f x.name cs h)

refuse_repeated_iff :
    (cs : List NameCount) → (refuse_repeated cs ≡ ok tt) ↔ All (λ (c : NameCount). c.count ≤ 1) cs
unfolding refuse_repeated
refuse_repeated_iff [] = (λ h. tt, λ h. refl)
refuse_repeated_iff (c ∷ cs) = ground (arith, refuse_repeated_iff cs)

count_of-le-one :
    (m : Text) (cs : List NameCount) → All (λ (c : NameCount). c.count ≤ 1) cs → count_of m cs ≤ 1
unfolding count_of
count_of-le-one m [] h = omega arith
count_of-le-one m (c ∷ cs) (p, h) = ground (arith, count_of-le-one m cs h)

-- The check of the counts passes exactly if no name is there twice.
pub check_duplicates-IsDistinct_iff :
    (hs : List SelectedHeader) → (check_duplicates hs ≡ ok tt) ↔ IsDistinct hs
unfolding check_duplicates
check_duplicates-IsDistinct_iff hs = (
  λ h n.
      let below =
        count_of-le-one n (count_names hs []) ((refuse_repeated_iff (count_names hs [])).0 h) in
      ground (arith, count_of-count_names n hs [], count_of-nil n),
  λ d.
      (refuse_repeated_iff (count_names hs [])).1
        (count_names-IsBelow (λ m. 0) (λ m. 1) hs [] (λ m. omega (arith, d m)) tt),
)

refuse_repeated-err :
    (f : Text → ℕ) (cs : List NameCount) (e : BindingProblem)
    → IsBelow f cs
    → refuse_repeated cs ≡ err e
    → (n : Text) × (e ≡ duplicate_of n) × (2 ≤ f n)
unfolding refuse_repeated
refuse_repeated-err f [] e b h = absurd (ground arith)
refuse_repeated-err f (c ∷ cs) e (p, b) h = elim (Bool-cases (ltb 1 c.count)) [
  | inl t ↦ (c.name, sym (err-injective (rw t at h)), ground arith)
  | inr t ↦ refuse_repeated-err f cs e b (rw t at h)
]

-- The first entry that is refused names a header that is there twice.
pub check_duplicates-err :
    (hs : List SelectedHeader) (e : BindingProblem)
    → check_duplicates hs ≡ err e
    → (n : Text) × (e ≡ duplicate_of n) × (2 ≤ named n hs)
unfolding check_duplicates
check_duplicates-err hs e h =
    refuse_repeated-err (λ m. named m hs) (count_names hs []) e
      (count_names-IsBelow (λ m. 0) (λ m. named m hs) hs [] (λ m. omega arith) tt) h
