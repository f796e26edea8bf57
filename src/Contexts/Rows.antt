-- ===== src/Contexts/Rows.antt =====
-- src/server/workflows/contexts.ts: the rows of the contexts by their ids.
use hack_the_north.Common.{
  ℕ, ◌≡◌, ap, refl, sym, subst, true, false, some, List, [], ◌∷◌, ◌++◌, map, arith, ◌==◌, inl, inr,
  Bool-cases, ok,
}
use hack_the_north.Contexts.{Context, lookup, find_context, row_update}

-- A change of a row leaves the primary key.
abbrev pub KeepsId : (Context → Context) → Type 0
KeepsId f = (c : Context) → (f c).id ≡ c.id

-- Whatever row a store has for an id, the other has one that is related to it.
unfoldable pub Tracks : (Context → Context → Type 0) → List Context → List Context → Type 0
Tracks R cs ds =
    (i : ℕ) (c : Context) → lookup i cs ≡ some c → (d : Context) × (lookup i ds ≡ some d) × R c d

pub lookup_id : (i : ℕ) (cs : List Context) {c : Context} → lookup i cs ≡ some c → c.id ≡ i
unfolding lookup
lookup_id i [] e = ground arith
lookup_id i (b ∷ cs) {c} e = ground (arith, lookup_id i cs {c = c})

pub lookup_own :
    (i : ℕ) (cs : List Context) {c : Context} → lookup i cs ≡ some c → lookup c.id cs ≡ some c
lookup_own i cs {c} e = subst (λ x. lookup x cs ≡ some c) (sym (lookup_id i cs e)) e

pub find_context-eq-ok :
    (i : ℕ) (cs : List Context) {c : Context} → find_context i cs ≡ ok c → lookup i cs ≡ some c
unfolding find_context
find_context-eq-ok i cs e = ground arith

pub lookup-map :
    (i : ℕ) (f : Context → Context) (cs : List Context) {c : Context}
    → KeepsId f
    → lookup i cs ≡ some c
    → lookup i (map f cs) ≡ some (f c)
unfolding lookup
lookup-map i f [] keeps e = ground arith
lookup-map i f (b ∷ cs) {c} keeps e = elim (Bool-cases (b.id == i)) [
  | inl hit ↦
      let moved : (f b).id == i ≡ true = ground (arith, keeps b) in
      let same : b ≡ c = ground arith in simp moved (ap (λ x. some (f x)) same)
  | inr miss ↦
      let moved : (f b).id == i ≡ false = ground (arith, keeps b) in
      simp moved (lookup-map i f cs keeps (rw miss at e))
]

pub lookup-append :
    (i : ℕ) (cs ds : List Context) {c : Context}
    → lookup i cs ≡ some c
    → lookup i (cs ++ ds) ≡ some c
unfolding lookup
lookup-append i [] ds e = ground arith
lookup-append i (b ∷ cs) ds {c} e = ground (arith, lookup-append i cs ds {c = c})

module _ (R : Context → Context → Type 0) where
  pub Tracks-refl : ((c : Context) → R c c) → (cs : List Context) → Tracks R cs cs
  unfolding Tracks
  Tracks-refl same cs i c e = (c, e, same c)

  pub Tracks-trans :
      ((a b c : Context) → R a b → R b c → R a c)
      → (cs ds es : List Context) → Tracks R cs ds
      → Tracks R ds es
      → Tracks R cs es
  unfolding Tracks
  Tracks-trans then_ cs ds es f g i c e =
      let (d, at, r) = f i c e in let (x, there, q) = g i d at in (x, there, then_ c d x r q)

  pub map-Tracks :
      (f : Context → Context) (cs : List Context)
      → KeepsId f
      → ((i : ℕ) (c : Context) → lookup i cs ≡ some c → R c (f c))
      → Tracks R cs (map f cs)
  unfolding Tracks
  map-Tracks f cs keeps step i c e = (f c, lookup-map i f cs keeps e, step i c e)

  pub update-Tracks :
      (id : ℕ) (f : Context → Context) (cs : List Context)
      → KeepsId f
      → ((c : Context) → R c c)
      → ((c : Context) → lookup id cs ≡ some c → R c (f c))
      → Tracks R cs (map (row_update id f) cs)
  unfolding row_update
  update-Tracks id f cs keeps same step =
      map-Tracks (row_update id f) cs
        (λ c. elim (Bool-cases (c.id == id)) [
          | inl here ↦ rw here (keeps c)
          | inr other ↦ rw other refl
        ])
        (λ i c e. elim (Bool-cases (c.id == id)) [
          | inl here ↦
              let same_id : i ≡ id = ground (arith, lookup_id i cs e) in
              rw here (step c (rw same_id at e))
          | inr other ↦ rw other (same c)
        ])
