-- ===== src/EventStream/Order.antt =====
-- What a stream writes (src/server/event-stream.ts): events of its run, each once, in order.
use hack_the_north.Common.{
  ℕ, ◌<◌, ◌≡◌, refl, Bool, false, List, [], ◌∷◌, ◌++◌, ok, arith, ◌⊎◌, inl, inr,
}
use hack_the_north.EventStream.{Event, Page, Body, Timing, frames, pull}

-- Events of one run that lead from one cursor to another, with strictly increasing sequence numbers.
abbrev pub Follows : ℕ → ℕ → ℕ → List Event → Type 0
Follows run_id lo hi [] = lo ≡ hi
Follows run_id lo hi (e ∷ rest) =
    (lo < e.sequence) × (e.run_id ≡ run_id) × Follows run_id e.sequence hi rest

frames-Follows :
    (run_id lo hi : ℕ) (items : List Event)
    → frames run_id lo items ≡ ok hi
    → Follows run_id lo hi items
unfolding frames
frames-Follows run_id lo hi [] e = ground arith
frames-Follows run_id lo hi (x ∷ rest) e =
    (ground arith, ground arith, frames-Follows run_id x.sequence hi rest (ground arith))

Follows-append :
    (run_id lo mid hi : ℕ) (xs ys : List Event)
    → Follows run_id lo mid xs
    → Follows run_id mid hi ys
    → Follows run_id lo hi (xs ++ ys)
Follows-append run_id lo mid hi [] ys f g = rw f g
Follows-append run_id lo mid hi (x ∷ xs) ys (up, mine, f) g =
    (up, mine, Follows-append run_id x.sequence mid hi xs ys f g)

module _ (t : Timing) (run_id start : ℕ) where
  pull_cases :
      (now : ℕ) (terminal : Bool) (page : Page) (b : Body)
      → ((after : ℕ) × (frames run_id b.after page.items ≡ ok after)
          × ((pull now t run_id terminal page b).after ≡ after)
          × ((pull now t run_id terminal page b).written ≡ b.written ++ page.items))
        ⊎ (((pull now t run_id terminal page b).after ≡ b.after)
            × ((pull now t run_id terminal page b).written ≡ b.written))
  unfolding pull
  pull_cases now terminal page b = ground arith

  pull-Follows :
      (now : ℕ) (terminal : Bool) (page : Page) (b : Body)
      → Follows run_id start b.after b.written
      → Follows run_id start
          (pull now t run_id terminal page b).after
          (pull now t run_id terminal page b).written
  pull-Follows now terminal page b f = elim (pull_cases now terminal page b) [
    | inl (after, framed, moved, wrote) ↦
        rw (moved, wrote)
          (Follows-append run_id start b.after after b.written page.items f
            (frames-Follows run_id b.after after page.items framed))
    | inr (moved, wrote) ↦ rw (moved, wrote) f
  ]

  -- The turns of a stream: the time, whether the run was terminal, and the page that was read.
  unfoldable pub turns : List (ℕ × Bool × Page) → Body → Body
  turns [] b = b
  turns ((now, terminal, page) ∷ rest) b = turns rest (pull now t run_id terminal page b)

  turns-Follows_from :
      (ps : List (ℕ × Bool × Page)) (b : Body)
      → Follows run_id start b.after b.written
      → Follows run_id start (turns ps b).after (turns ps b).written
  unfolding turns
  turns-Follows_from [] b f = f
  turns-Follows_from ((now, terminal, page) ∷ rest) b f =
      turns-Follows_from rest (pull now t run_id terminal page b)
        (pull-Follows now terminal page b f)

  -- Whatever pages are read, also wrong ones, a stream writes only events of its run, with strictly
  -- increasing sequence numbers above the cursor that it was opened with, and its cursor is always
  -- the last of them: none is written twice.
  pub turns-Follows :
      (now : ℕ) (ps : List (ℕ × Bool × Page))
      → let b =
          turns ps (record { after = start; last_write = now; stopped = false; written = [] }) in
        Follows run_id start b.after b.written
  turns-Follows now ps =
      turns-Follows_from ps
        (record { after = start; last_write = now; stopped = false; written = [] }) refl
