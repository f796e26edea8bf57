-- ===== src/EventStream/Limits.antt =====
-- The limits on open streams (src/server/event-stream.ts): what the counters of a handler count, and
-- that no order of openings and closings passes the limits.
use hack_the_north.Common.{
  ℕ, zero, suc, ◌+◌, ◌≤◌, ◌≡◌, ◌≢◌, refl, Bool, not, ◌&&◌, Option, none, some, List, [], ◌∷◌, ok,
  err, arith, ◌==◌, if◌then◌else◌, count_of, Option-cases, inl, inr, Result, err, Result-cases,
  Text,
}
use hack_the_north.EventStream.{
  StreamError, Stream, Handler, count_for, open_stream, set_owner, released, stop_at, cleanup,
  pagination, Pagination, max_safe_integer, cursor,
}

abbrev is_live : Stream → Bool
is_live s = not s.stopped

abbrev is_live_of : ℕ → Stream → Bool
is_live_of o s = s.owner == o && not s.stopped

-- The counters count the streams that are not stopped, an owner with none has no entry, and the
-- limits hold.
pub record Counted (h : Handler) : Type 0 where
  pub active : h.active ≡ count_of is_live h.streams
  pub owners : (o : ℕ) → count_for h o ≡ count_of (is_live_of o) h.streams
  pub no_zero : (o : ℕ) → h.owners o ≢ some 0
  pub at_most : h.active ≤ 100
  pub owner_at_most : (o : ℕ) → count_for h o ≤ 5

abbrev pub no_streams : Handler
no_streams = record { active = 0; owners = λ o. none; streams = [] }

no_streams-Counted : Counted no_streams
no_streams-Counted = record {
  active = refl;
  owners = λ o. refl;
  no_zero = λ o. ground arith;
  at_most = omega arith;
  owner_at_most = λ o. omega arith;
}

open_stream-Counted :
    (now : ℕ) (found : Bool) (owner expires : ℕ) (h g : Handler)
    → Counted h
    → open_stream now found owner expires h ≡ ok g
    → Counted g
unfolding open_stream set_owner
open_stream-Counted now found owner expires h g c e = record {
  active = ground (arith, c.active);
  owners = λ o. ground (arith, c.owners o, c.owners owner);
  no_zero = λ o. ground (arith, c.no_zero o);
  at_most = ground (arith, c.at_most);
  owner_at_most = λ o. ground (arith, c.owner_at_most o);
}

-- The first `cleanup` of a stream takes one from the live streams, and from its owner's.
stop_at-live :
    (i : ℕ) (ss : List Stream) (o : ℕ)
    → (stop_at i ss).1 ≡ some o
    → count_of is_live ss ≡ count_of is_live (stop_at i ss).0 + 1
unfolding stop_at
stop_at-live i [] o e = ground arith
stop_at-live zero (s ∷ rest) o e = ground arith
stop_at-live (suc i) (s ∷ rest) o e = ground (arith, stop_at-live i rest o e)

stop_at-live_of :
    (i : ℕ) (ss : List Stream) (o x : ℕ)
    → (stop_at i ss).1 ≡ some o
    → count_of (is_live_of x) ss
      ≡ count_of (is_live_of x) (stop_at i ss).0 + (if x == o then 1 else 0)
unfolding stop_at
stop_at-live_of i [] o x e = ground arith
stop_at-live_of zero (s ∷ rest) o x e = ground arith
stop_at-live_of (suc i) (s ∷ rest) o x e = ground (arith, stop_at-live_of i rest o x e)

cleanup-Counted : (i : ℕ) (h : Handler) → Counted h → Counted (cleanup i h)
unfolding cleanup released set_owner
cleanup-Counted i h c = elim (Option-cases (stop_at i h.streams).1) [
  | inl idle ↦ rw (idle, cleanup) c
  | inr (o, stopped) ↦
      rw (stopped, cleanup)
        (record {
          active = omega (arith, c.active, stop_at-live i h.streams o stopped);
          owners =
              λ x. ground (arith, c.owners x, c.owners o, stop_at-live_of i h.streams o x stopped);
          no_zero = λ x. ground (arith, c.no_zero x);
          at_most = omega (arith, c.at_most);
          owner_at_most = λ x. ground (arith, c.owner_at_most x, c.owner_at_most o, c.owners o);
        })
]

-- What happens to a handler: a request, which may be refused, or the `cleanup` of a stream.
pub data Happening : Type 0 where
  opens : (now : ℕ) → (found : Bool) → (owner expires_at : ℕ) → Happening
  ends : ℕ → Happening

abbrev served : Handler → Happening → Handler
served h (opens now found owner expires) = or_keep h (open_stream now found owner expires h)
  where
    or_keep : Handler → Result StreamError Handler → Handler
    or_keep h (ok g) = g
    or_keep h (err e) = h
served h (ends i) = cleanup i h

unfoldable pub serve : Handler → List Happening → Handler
serve h [] = h
serve h (e ∷ es) = serve (served h e) es

served-Counted : (h : Handler) (e : Happening) → Counted h → Counted (served h e)
served-Counted h (ends i) c = cleanup-Counted i h c
served-Counted h (opens now found owner expires) c =
    elim (Result-cases (open_stream now found owner expires h)) [
      | inl (g, e) ↦ rw e (open_stream-Counted now found owner expires h g c e)
      | inr (x, e) ↦ rw e c
    ]

serve-Counted_from : (es : List Happening) (h : Handler) → Counted h → Counted (serve h es)
unfolding serve
serve-Counted_from [] h c = c
serve-Counted_from (e ∷ es) h c = serve-Counted_from es (served h e) (served-Counted h e c)

-- After any sequence of requests, which may be refused, and of cleanups, which may be repeated for a
-- stream, `active` counts the streams that are not stopped, each owner's entry counts those of the
-- owner, an owner with none has no entry, and at most 100 streams are open, at most 5 of an owner.
pub serve-Counted : (es : List Happening) → Counted (serve no_streams es)
serve-Counted es = serve-Counted_from es no_streams no_streams-Counted

-- An accepted query asks for 1 to 100 events after a safe integer.
pub pagination_bounds :
    (query : List (Text × Text)) (last_id : Option Text) (p : Pagination)
    → pagination query last_id ≡ ok p
    → (1 ≤ p.limit) × (p.limit ≤ 100) × (p.after ≤ max_safe_integer)
unfolding pagination cursor
pagination_bounds query last_id p e = ground arith
