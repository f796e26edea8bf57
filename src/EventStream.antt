-- ===== src/EventStream.antt =====
-- src/server/event-stream.ts: the cursor and page size of a request, the limits on open streams, and
-- the pages that a stream writes. A run's and an owner's id are numbers; times are milliseconds.
pub mod Limits
pub mod Order
pub mod Resuming
mod Witnesses
use hack_the_north.Common.{
  ℕ, zero, suc, ◌+◌, ◌-◌, ◌*◌, Bool, true, false, not, ◌&&◌, ◌||◌, Option, none, some, List, [],
  ◌∷◌, ◌++◌, Text, Result, ok, err, ◌>>=◌, ◌>>◌, throw_if, ◌==◌, leb, if◌then◌else◌, length, all,
  any, count_of, text_eq, or_else, codes, is_some,
}

pub data StreamError : Type 0 where
  invalid_request not_found unauthorized rate_limited invalid_page invalid_sequence : StreamError

-- `Number.MAX_SAFE_INTEGER`.
abbrev pub max_safe_integer : ℕ
max_safe_integer = 9007199254740991

abbrev is_digit : ℕ → Bool
is_digit c = leb b'0' c && leb c b'9'

-- `^(0|[1-9]\d*)$`.
unfoldable pub decimal_ok : Text → Bool
decimal_ok [] = false
decimal_ok (c ∷ []) = is_digit c
decimal_ok (c ∷ d ∷ t) = is_digit c && (not (c == b'0') && all is_digit (d ∷ t))

unfoldable pub decimal_value : ℕ → Text → ℕ
decimal_value n [] = n
decimal_value n (c ∷ t) = decimal_value (n * 10 + (c - b'0')) t

-- A number above the safe integers is rounded to one that is not safe either.
unfoldable pub cursor : Text → Result StreamError ℕ
unfolding decimal_ok decimal_value
cursor t =
    if decimal_ok t && leb (decimal_value 0 t) max_safe_integer
    then ok (decimal_value 0 t)
    else err invalid_request

pub record Pagination : Type 0 where
  pub after : ℕ
  pub limit : ℕ

abbrev is_key : Text → Text × Text → Bool
is_key k p = text_eq p.0 k

abbrev pub param : Text → List (Text × Text) → Option Text
param k [] = none
param k (p ∷ rest) = if text_eq p.0 k then some p.1 else param k rest

-- A search parameter that is unknown, or given twice.
abbrev pub bad_keys : List (Text × Text) → Bool
bad_keys query =
    any
      (λ p.
        not (text_eq p.0 (codes "after") || text_eq p.0 (codes "limit"))
        || not (count_of (is_key p.0) query == 1))
      query

-- The cursor of the header `last-event-id`, if there is one.
unfoldable pub resumed : ℕ → Option Text → Result StreamError ℕ
unfolding cursor
resumed n none = ok n
resumed n (some t) = cursor t

-- `query` holds the search parameters in order, `last_id` the header `last-event-id`.
unfoldable pub pagination : List (Text × Text) → Option Text → Result StreamError Pagination
unfolding cursor resumed
pagination query last_id = do
  throw_if (bad_keys query) invalid_request
  query_after ← cursor (or_else (param (codes "after") query) (codes "0"))
  after ← resumed query_after last_id
  limit ← cursor (or_else (param (codes "limit") query) (codes "50"))
  throw_if (not (leb 1 limit) || not (leb limit 100)) invalid_request
  ok (record { after = after; limit = limit })

-- A stream that was opened, and whether its `cleanup` has run.
pub record Stream : Type 0 where
  pub owner : ℕ
  pub stopped : Bool

-- The variables of a handler, and its streams in the order of their opening.
pub record Handler : Type 0 where
  pub active : ℕ
  pub owners : ℕ → Option ℕ
  pub streams : List Stream

abbrev pub count_for : Handler → ℕ → ℕ
count_for h o = or_else (h.owners o) 0

-- `owners.set` and `owners.delete`.
unfoldable pub set_owner : ℕ → Option ℕ → (ℕ → Option ℕ) → ℕ → Option ℕ
set_owner o n m x = if x == o then n else m x

-- `stream` up to the construction of its body; `found` says whether `getRun` finds the run.
unfoldable pub open_stream :
    ℕ → Bool → (owner : ℕ) → (expires_at : ℕ) → Handler → Result StreamError Handler
unfolding set_owner
open_stream now found owner expires_at h =
    if not found
    then err not_found
    else if leb expires_at now
    then err unauthorized
    else if leb 100 h.active || leb 5 (count_for h owner)
    then err rate_limited
    else ok (record {
      active = h.active + 1;
      owners = set_owner owner (some (count_for h owner + 1)) h.owners;
      streams = record { owner = owner; stopped = false } ∷ h.streams;
    })

-- `cleanup` of one stream. The count of a live stream is at least 1.
unfoldable pub released : ℕ → Handler → Handler
unfolding set_owner
released owner h =
    let remaining = or_else (h.owners owner) 1 - 1 in
    record h {
      active = h.active - 1;
      owners = set_owner owner (if remaining == 0 then none else some remaining) h.owners;
    }

-- `cleanup` of the stream at a position, by whatever ends it first and by all that follows.
unfoldable pub stop_at : ℕ → List Stream → List Stream × Option ℕ
stop_at i [] = ([], none)
stop_at zero (s ∷ rest) =
    if s.stopped then (s ∷ rest, none) else (record s { stopped = true } ∷ rest, some s.owner)
stop_at (suc i) (s ∷ rest) = let r = stop_at i rest in (s ∷ r.0, r.1)

unfoldable pub cleanup : ℕ → Handler → Handler
unfolding stop_at released
cleanup i h = elim (stop_at i h.streams).1 [
  | none ↦ h
  | some owner ↦ released owner (record h { streams = (stop_at i h.streams).0 })
]

pub record Event : Type 0 where
  pub run_id : ℕ
  pub sequence : ℕ

pub record Page : Type 0 where
  pub items : List Event
  pub next_cursor : Option ℕ

-- The frames of a page, by the cursor that they leave.
unfoldable pub frames : ℕ → ℕ → List Event → Result StreamError ℕ
frames run_id next [] = ok next
frames run_id next (e ∷ rest) =
    if not (e.run_id == run_id) || (not (leb e.sequence max_safe_integer) || leb e.sequence next)
    then err invalid_sequence
    else frames run_id e.sequence rest

-- What an open stream keeps, and the events that it has written.
pub record Body : Type 0 where
  pub after : ℕ
  pub last_write : ℕ
  pub stopped : Bool
  pub written : List Event

pub record Timing : Type 0 where
  pub deadline : ℕ
  pub keepalive_ms : ℕ
  pub limit : ℕ

abbrev is_empty : List Event → Bool
is_empty [] = true
is_empty (e ∷ rest) = false

-- One turn of the loop of `pull`: the status and the page are read in it, and any error ends it.
unfoldable pub pull : ℕ → Timing → (run_id : ℕ) → (terminal : Bool) → Page → Body → Body
unfolding frames
pull now t run_id terminal page b =
    if b.stopped
    then b
    else if leb t.deadline now
    then record b { stopped = true }
    else if not (leb (length page.items) t.limit)
    then record b { stopped = true }
    else elim (frames run_id b.after page.items) [
      | err e ↦ record b { stopped = true }
      | ok next ↦
          let done = terminal && not (is_some page.next_cursor) in
          if not (is_empty page.items)
          then record {
            after = next;
            last_write = now;
            stopped = done;
            written = b.written ++ page.items;
          }
          else if done
          then record b { stopped = true }
          else if leb t.keepalive_ms (now - b.last_write)
          then record b { last_write = now }
          else b
    ]
