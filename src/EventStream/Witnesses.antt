-- ===== src/EventStream/Witnesses.antt =====
-- The limits and the order of a stream at concrete requests and pages.
use hack_the_north.Common.{ℕ, ◌≡◌, refl, arith, true, false, none, some, [], ◌∷◌, ok, codes}
use hack_the_north.EventStream.Resuming.{frame_id, pagination-frame_id}
use hack_the_north.EventStream.{Page, Timing, pagination, cursor, decimal_ok, decimal_value}
use hack_the_north.EventStream.Limits.{Counted, Happening, no_streams, serve, serve-Counted}
use hack_the_north.EventStream.Order.{Follows, turns, turns-Follows}

-- Two streams of owner 9, a refused one, and two cleanups of the same stream.
serve-Counted_example : Counted (
    serve no_streams (
      Happening.opens 10 true 9 100
      ∷ Happening.opens 20 true 9 100
      ∷ Happening.opens 30 false 8 100
      ∷ Happening.ends 0
      ∷ Happening.ends 0
      ∷ []))
serve-Counted_example = serve-Counted (
    Happening.opens 10 true 9 100
    ∷ Happening.opens 20 true 9 100
    ∷ Happening.opens 30 false 8 100
    ∷ Happening.ends 0
    ∷ Happening.ends 0
    ∷ [])

reads :
    pagination ((codes "limit", codes "20") ∷ []) (some (codes "17"))
    ≡ ok (record { after = 17; limit = 20 })
unfolding pagination cursor decimal_ok decimal_value
reads = refl

abbrev timing : Timing
timing = record { deadline = 60000; keepalive_ms = 15000; limit = 50 }

abbrev page : ℕ → Page
page n = record { items = record { run_id = 1; sequence = n } ∷ []; next_cursor = none }

turns-Follows_example :
    let b =
      turns timing 1 4
        ((10, false, page 5) ∷ (20, false, page 5) ∷ (30, true, page 6) ∷ [])
        (record { after = 4; last_write = 0; stopped = false; written = [] }) in
    Follows 1 4 b.after b.written
turns-Follows_example =
    turns-Follows timing 1 4 0 ((10, false, page 5) ∷ (20, false, page 5) ∷ (30, true, page 6) ∷ [])

reconnected :
    pagination ((codes "limit", codes "20") ∷ []) none ≡ ok (record { after = 0; limit = 20 })
unfolding pagination cursor decimal_ok decimal_value
reconnected = refl

pagination-frame_id_example :
    pagination ((codes "limit", codes "20") ∷ []) (some (frame_id 17))
    ≡ ok (record { after = 17; limit = 20 })
pagination-frame_id_example =
    pagination-frame_id ((codes "limit", codes "20") ∷ []) (record { after = 0; limit = 20 }) 17
      reconnected (omega arith)

seventeen : frame_id 17 ≡ codes "17"
unfolding frame_id
seventeen = refl
