-- ===== src/Voter/Buffered.antt =====
-- `Buffered` of src/voter/mod.rs: a queue before a sink. The sink is the client's.
pub mod Order
use finality_grandpa.Base.{List, [], ◌∷◌, ◌++◌}
use finality_grandpa.Voter.Call.{
  Poll, ready, pending, Answer, fine, fault, Reply, returned, raised, panicked, Call,
}

-- `Sink<I>` of the futures crate, in one poll. The sink is of type `O`.
pub record Sink {ℓ κ μ} (O : Type ℓ) (I : Type κ) (X : Type μ) : Type (ℓ ⊔ κ ⊔ μ) where
  pub poll_ready : O → Poll (Answer X (Unit {0})) × O
  pub start_send : O → I → Answer X (Unit {0}) × O
  pub poll_flush : O → Poll (Answer X (Unit {0})) × O

pub record Buffered {ℓ κ} (O : Type ℓ) (I : Type κ) : Type (ℓ ⊔ κ) where
  pub inner : O
  pub buffer : List I

module _ {ℓ κ} {O : Type ℓ} {I : Type κ} where
  -- `Buffered::new`
  abbrev pub new : O → Buffered O I
  new inner = record { inner = inner; buffer = [] }

  -- `Buffered::push`
  unfoldable pub push : Buffered O I → I → Buffered O I
  push b item = record b { buffer = b.buffer ++ item ∷ [] }

-- How `schedule_all` ends, with the sink, what is left in the buffer, and the items that the sink has
-- been given, of which it has refused the last when `start_send` fails.
pub data Scheduled {ℓ κ μ} (O : Type ℓ) (I : Type κ) (X : Type μ) : Type (ℓ ⊔ κ ⊔ μ) where
  empty : O → List I → Scheduled O I X
  waits : O → List I → List I → Scheduled O I X
  fails : X → O → List I → List I → Scheduled O I X

module _ {ℓ κ μ} {O : Type ℓ} {I : Type κ} {X : Type μ} where
  -- `Buffered::schedule_all`, with the items given so far.
  unfoldable pub schedule_from : Sink O I X → O → List I → List I → Scheduled O I X
  schedule_from sink inner given [] = empty inner given
  schedule_from sink inner given (item ∷ buffer) = elim ((sink.poll_ready inner).0) [
    | pending ↦ waits ((sink.poll_ready inner).1) given (item ∷ buffer)
    | ready is_ready ↦ elim is_ready [
      | fault x ↦ fails x ((sink.poll_ready inner).1) given (item ∷ buffer)
      | fine _ ↦ elim ((sink.start_send ((sink.poll_ready inner).1) item).0) [
        | fault x ↦
            fails x ((sink.start_send ((sink.poll_ready inner).1) item).1) (given ++ item ∷ [])
              buffer
        | fine _ ↦
            schedule_from sink ((sink.start_send ((sink.poll_ready inner).1) item).1)
              (given ++ item ∷ []) buffer
      ]
    ]
  ]

  unfoldable pub schedule_all : Sink O I X → Buffered O I → Scheduled O I X
  unfolding schedule_from
  schedule_all sink b = schedule_from sink b.inner [] b.buffer

  -- The call of `poll_flush`, with `left` in the buffer.
  unfoldable pub poll_flush : Sink O I X → O → List I → Reply X (Buffered O I) (Poll (Unit {0}))
  poll_flush sink inner left = elim ((sink.poll_flush inner).0) [
    | pending ↦ returned pending (record { inner = (sink.poll_flush inner).1; buffer = left })
    | ready flushed ↦ elim flushed [
      | fine _ ↦ returned (ready tt) (record { inner = (sink.poll_flush inner).1; buffer = left })
      | fault x ↦ raised x (record { inner = (sink.poll_flush inner).1; buffer = left })
    ]
  ]

  -- `Buffered::poll`
  unfoldable pub poll : Sink O I X → Call X (Buffered O I) (Poll (Unit {0}))
  unfolding schedule_all poll_flush
  poll sink b = elim (schedule_all sink b) [
    | fails x inner given left ↦ raised x (record { inner = inner; buffer = left })
    | empty inner given ↦ poll_flush sink inner []
    | waits inner given left ↦ elim (poll_flush sink inner left) [
      | returned flushed t ↦ returned pending t
      | raised x t ↦ raised x t
      | panicked ↦ panicked
    ]
  ]

  -- The items that the sink has been given, and those that are left.
  abbrev pub items : Scheduled O I X → List I
  items (empty inner given) = given
  items (waits inner given left) = given ++ left
  items (fails x inner given left) = given ++ left
