-- ===== src/Reproduction/Candidates.antt =====
-- src/server/workflows/reproduction.ts: the candidates by their ids.
use hack_the_north.Common.{
  ℕ, ◌≡◌, ap, refl, Bool, true, false, ◌||◌, Option, some, List, [], ◌∷◌, ◌++◌, arith,
  if◌then◌else◌, inl, inr, Bool-cases, find?, any, ◌==◌,
}
use hack_the_north.Reproduction.{Candidate, is_id, change}

abbrev pub has : ℕ → List Candidate → Bool
has n cs = any (λ c. c.id == n) cs

pub has-change :
    (id : Option ℕ) (n : ℕ) (f : Candidate → Candidate) (cs : List Candidate)
    → ((c : Candidate) → (f c).id ≡ c.id)
    → has n (change id f cs) ≡ has n cs
unfolding change
has-change id n f [] keeps = refl
has-change id n f (c ∷ cs) keeps = elim (Bool-cases (is_id id c.id)) [
  | inl mine ↦ simp mine (rw (keeps c, has-change id n f cs keeps) refl)
  | inr other ↦ simp other (rw (has-change id n f cs keeps) refl)
]

pub has-append :
    (n : ℕ) (cs : List Candidate) (c : Candidate)
    → has n (cs ++ (c ∷ [])) ≡ (has n cs || (c.id == n))
has-append n [] c = ground arith
has-append n (d ∷ cs) c = ground (arith, has-append n cs c)

pub find?-append :
    (n : ℕ) (cs : List Candidate) (c : Candidate)
    → has n cs ≡ false
    → c.id == n ≡ true
    → find? (λ d. d.id == n) (cs ++ (c ∷ [])) ≡ some c
find?-append n [] c none_yet mine = simp mine refl
find?-append n (d ∷ cs) c none_yet mine = elim (Bool-cases (d.id == n)) [
  | inl here ↦ ground arith
  | inr other ↦ simp other (find?-append n cs c (ground arith) mine)
]

pub find?-grows :
    (n : ℕ) (cs ds : List Candidate) {c : Candidate}
    → find? (λ d. d.id == n) cs ≡ some c
    → find? (λ d. d.id == n) (cs ++ ds) ≡ some c
find?-grows n [] ds e = ground arith
find?-grows n (d ∷ cs) ds {c} e = ground (arith, find?-grows n cs ds {c = c})

pub find?-change :
    (n a : ℕ) (f : Candidate → Candidate) (cs : List Candidate) {c : Candidate}
    → ((d : Candidate) → (f d).id ≡ d.id)
    → find? (λ d. d.id == n) cs ≡ some c
    → find? (λ d. d.id == n) (change (some a) f cs) ≡ some (if is_id (some a) c.id then f c else c)
unfolding change
find?-change n a f [] keeps e = ground arith
find?-change n a f (d ∷ cs) {c} keeps e = elim (Bool-cases (d.id == n)) [
  | inl here ↦
      let same : d ≡ c = ground arith in
      let moved : (if is_id (some a) d.id then f d else d).id == n ≡ true =
        ground (arith, keeps d) in
      simp moved (ap (λ x. some (if is_id (some a) x.id then f x else x)) same)
  | inr other ↦
      let moved : (if is_id (some a) d.id then f d else d).id == n ≡ false =
        ground (arith, keeps d) in
      simp moved (find?-change n a f cs keeps (rw other at e))
]
