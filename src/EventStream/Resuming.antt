-- ===== src/EventStream/Resuming.antt =====
-- src/server/event-stream.ts: the id of a frame, which a client sends back as `last-event-id`.
use hack_the_north.Common.{
  ℕ, zero, suc, ◌+◌, ◌-◌, ◌*◌, ◌/◌, ◌%◌, ◌≤◌, ◌<◌, ◌≡◌, refl, ap, Bool, true, false, not, ◌&&◌,
  ◌||◌, none, some, List, [], ◌∷◌, ◌++◌, Text, Result, ok, ◌>>=◌, ◌>>◌, >>=-eq-ok, throw_if,
  throw_if-eq-ok, ◌==◌, leb, ltb, if◌then◌else◌, all, or_else, codes, inl, inr, Bool-cases, arith,
}
use hack_the_north.EventStream.{
  StreamError, max_safe_integer, is_digit, decimal_ok, decimal_value, cursor, Pagination, bad_keys,
  param, resumed, pagination,
}

-- The decimal numeral of a number below the fuel, without leading zeros.
unfoldable numeral : (fuel n : ℕ) → Text
numeral zero n = []
numeral (suc fuel) n =
    let front = numeral fuel (n / 10) in
    if ltb n 10 then (b'0' + n) ∷ [] else front ++ ((b'0' + n % 10) ∷ [])

-- `${event.sequence}`.
unfoldable pub frame_id : ℕ → Text
unfolding numeral
frame_id n = numeral (suc n) n

-- A text that starts with a digit from 1 and goes on with digits.
leads : Text → Bool
leads [] = false
leads (c ∷ t) = is_digit c && (not (c == b'0') && all is_digit t)

all-append :
    (s : Text) (c : ℕ)
    → all is_digit s ≡ true
    → is_digit c ≡ true
    → all is_digit (s ++ (c ∷ [])) ≡ true
all-append [] c h d = ground arith
all-append (x ∷ s) c h d = ground (arith, all-append s c)

leads-append :
    (s : Text) (c : ℕ) → leads s ≡ true → is_digit c ≡ true → leads (s ++ (c ∷ [])) ≡ true
unfolding leads
leads-append [] c h d = ground arith
leads-append (x ∷ s) c h d = ground (arith, all-append s c)

leads-decimal_ok : (s : Text) → leads s ≡ true → decimal_ok s ≡ true
unfolding leads decimal_ok
leads-decimal_ok [] h = ground arith
leads-decimal_ok (c ∷ []) h = ground arith
leads-decimal_ok (c ∷ d ∷ s) h = ground arith

value-append :
    (n : ℕ) (s : Text) (c : ℕ)
    → decimal_value n (s ++ (c ∷ [])) ≡ decimal_value n s * 10 + (c - b'0')
unfolding decimal_value
value-append n [] c = refl
value-append n (x ∷ s) c = value-append (n * 10 + (x - b'0')) s c

value-numeral : (fuel n : ℕ) → n < fuel → decimal_value 0 (numeral fuel n) ≡ n
unfolding numeral decimal_value
value-numeral zero n h = absurd (omega arith)
value-numeral (suc fuel) n h = elim (Bool-cases (ltb n 10)) [
  | inl one ↦ simp one (ground arith)
  | inr more ↦ simp more (
      let big : 10 ≤ n = ground arith in
      let step = value-append 0 (numeral fuel (n / 10)) (b'0' + n % 10) in
      let front : decimal_value 0 (numeral fuel (n / 10)) ≡ n / 10 =
        value-numeral fuel (n / 10) (omega arith) in
      ground arith)
]

leads-numeral : (fuel n : ℕ) → n < fuel → 0 < n → leads (numeral fuel n) ≡ true
unfolding numeral leads
leads-numeral zero n h pos = absurd (omega arith)
leads-numeral (suc fuel) n h pos = elim (Bool-cases (ltb n 10)) [
  | inl one ↦ simp one (ground arith)
  | inr more ↦ simp more (
      leads-append (numeral fuel (n / 10)) (b'0' + n % 10)
        (leads-numeral fuel (n / 10) (omega arith) (ground arith)) (ground arith))
]

frame_id-decimal_ok : (n : ℕ) → decimal_ok (frame_id n) ≡ true
unfolding frame_id numeral decimal_ok
frame_id-decimal_ok zero = refl
frame_id-decimal_ok (suc n) =
    leads-decimal_ok (numeral (suc (suc n)) (suc n))
      (leads-numeral (suc (suc n)) (suc n) (omega arith) (omega arith))

cursor-frame_id : (n : ℕ) → n ≤ max_safe_integer → cursor (frame_id n) ≡ ok n
unfolding cursor frame_id
cursor-frame_id n h =
    let value : decimal_value 0 (frame_id n) ≡ n = value-numeral (suc n) n (omega arith) in
    let fine : decimal_ok (frame_id n) ≡ true = frame_id-decimal_ok n in
    let small : leb n max_safe_integer ≡ true = ground arith in simp (fine, value, small) refl

-- The rest of `pagination` after the cursor.
page_size : List (Text × Text) → (after : ℕ) → Result StreamError Pagination
page_size query after = do
  limit ← cursor (or_else (param (codes "limit") query) (codes "50"))
  throw_if (not (leb 1 limit) || not (leb limit 100)) StreamError.invalid_request
  ok (record { after = after; limit = limit })

page_size-after :
    (query : List (Text × Text)) (m n : ℕ) (p : Pagination)
    → page_size query m ≡ ok p
    → page_size query n ≡ ok (record p { after = n })
unfolding page_size
page_size-after query m n p h =
    let (limit, e, rest) =
      >>=-eq-ok (cursor (or_else (param (codes "limit") query) (codes "50"))) _ h in
    let (fine, done) =
      throw_if-eq-ok (not (leb 1 limit) || not (leb limit 100)) StreamError.invalid_request
        (ok (record { after = m; limit = limit })) rest in
    let size : limit ≡ p.limit = ground arith in
    rw e (simp fine (ap (λ x. ok (record { after = n; limit = x })) size))

-- A request that is accepted, sent again with the id of a frame as its `last-event-id`, is accepted
-- with the same page size and goes on after exactly the event of that frame, where its number is a
-- safe integer.
pub pagination-frame_id :
    (query : List (Text × Text)) (p : Pagination) (n : ℕ)
    → pagination query none ≡ ok p
    → n ≤ max_safe_integer
    → pagination query (some (frame_id n)) ≡ ok (record p { after = n })
unfolding pagination page_size resumed
pagination-frame_id query p n h safe =
    let back : cursor (frame_id n) ≡ ok n = cursor-frame_id n safe in
    let (known, rest) = throw_if-eq-ok (bad_keys query) StreamError.invalid_request _ h in
    let (m, e, last) =
      >>=-eq-ok (cursor (or_else (param (codes "after") query) (codes "0"))) (page_size query)
        rest in
    simp known (rw e (rw back (page_size-after query m n p last)))
