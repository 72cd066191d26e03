-- ===== src/Voter/Buffered/Order.antt =====
-- In which order a sink is given the items of its buffer.
use mathlib.Core.List.{append_assoc, append-nil}
use finality_grandpa.Base.{List, [], ◌∷◌, ◌++◌, ◌≡◌, sym, arith}
use finality_grandpa.Voter.Buffered.{Sink, Buffered, schedule_from, schedule_all, items}

module _ {ℓ κ μ} {O : Type ℓ} {I : Type κ} {X : Type μ} where
  items-schedule_from :
      (sink : Sink O I X) (inner : O) (given buffer : List I)
      → items (schedule_from sink inner given buffer) ≡ given ++ buffer
  unfolding schedule_from
  items-schedule_from sink inner given [] = sym (append-nil given)
  items-schedule_from sink inner given (item ∷ buffer) = ground (
    arith,
    items-schedule_from sink ((sink.start_send ((sink.poll_ready inner).1) item).1)
        (given ++ item ∷ []) buffer,
    append_assoc given (item ∷ []) buffer,
  )

  -- Whatever the sink answers, the items that it has been given, followed by those that are left in
  -- the buffer, are those of the buffer before, in their order: none is lost, doubled or overtaken,
  -- and a failed `start_send` keeps from the sink only the item it was given.
  pub items-schedule_all :
      (sink : Sink O I X) (b : Buffered O I) → items (schedule_all sink b) ≡ b.buffer
  unfolding schedule_all
  items-schedule_all sink b = items-schedule_from sink b.inner [] b.buffer
