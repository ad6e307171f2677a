-- ===== src/Example.antt =====
-- examples/basic.cpp: one producer and two consumers, in threads of their own, that pass 100000
-- events. A turn of a thread is one round of its loop.
pub mod Inv
pub mod Publishing
pub mod Consuming
pub mod Progress
pub mod Turns
pub mod Finish
mod Tests
use low_latency_showcase.Prelude.{
  ℕ, zero, suc, ◌+◌, ◌-◌, ◌≡◌, Bool, true, false, Option, none, some, List, [], ◌∷◌, ltb, ◌==◌,
  if◌then◌else◌, update,
}
use low_latency_showcase.Words.{sub64}
use low_latency_showcase.Disruptor.State.{
  Shared, Disruptor, ProducerHandle, ConsumerHandle, init, make_producer, make_consumer,
}
use low_latency_showcase.Disruptor.Publish.{handle_try_publish_batch}
use low_latency_showcase.Disruptor.Consume.{handle_consume_available}

-- `market_event`
pub record MarketEvent : Type 0 where
  pub order_id : ℕ
  pub price_ticks : ℕ

abbrev pub event_count : ℕ
event_count = 100000

abbrev pub ring_capacity : ℕ
ring_capacity = 1024

abbrev pub no_event : MarketEvent
no_event = record { order_id = 0; price_ticks = 0 }

-- The batch for what remains, and its writer.
unfoldable pub next_batch : ℕ → ℕ
next_batch published =
    let remaining = sub64 event_count published in if ltb remaining 64 then remaining else 64

unfoldable pub write_event : ℕ → ℕ → MarketEvent → MarketEvent
write_event published offset event = record event {
  order_id = published + offset;
  price_ticks = 10000 + offset;
}

-- The stream, the flag `start`, the locals of the three threads, and what each consumer's handler
-- has made of its events. Consumer 0 is `risk`, consumer 1 `journal`.
pub record Program {κ} (S : Type κ) : Type κ where
  pub stream : Disruptor MarketEvent
  pub start : Bool
  pub producer : Option ProducerHandle
  pub published : ℕ
  pub consumers : ℕ → ConsumerHandle
  pub consumed : ℕ → ℕ
  pub states : ℕ → S

pub data Turn : Type 0 where
  main_turn risk_turn journal_turn : Turn

-- The program's own handlers ignore their events; any handlers may stand in their place.
module _ {κ} {S : Type κ} (handler : ℕ → S → MarketEvent → ℕ → S) where
  -- A round of the publication loop. Where the batch is refused the thread yields.
  unfoldable pub publish_round : ProducerHandle → Program S → Program S
  publish_round h p =
      let batch = next_batch p.published in
      let (done, m, h') =
        handle_try_publish_batch ring_capacity no_event batch (write_event p.published)
          p.stream.shared h in
      record p {
        stream = record p.stream { shared = m };
        producer = some h';
        published = if done then p.published + batch else p.published;
      }

  -- The main thread: it lets the consumers start and makes its handle, and then runs its loop.
  unfoldable pub main_step : Option ProducerHandle → Program S → Program S
  unfolding publish_round
  main_step none p = record p { start = true; producer = some (make_producer p.stream) }
  main_step (some h) p = if ltb p.published event_count then publish_round h p else p

  -- A round of a consumer's loop.
  unfoldable pub consume_round : ℕ → Program S → Program S
  consume_round i p =
      let (count, m, h, s) =
        handle_consume_available ring_capacity no_event (handler i) 64 p.stream.shared
          (p.consumers i) (p.states i) in
      record p {
        stream = record p.stream { shared = m };
        consumers = update p.consumers i h;
        consumed = update p.consumed i (p.consumed i + count);
        states = update p.states i s;
      }

  -- A consumer waits for `start`, and then runs its loop.
  unfoldable pub consumer_step : ℕ → Program S → Program S
  unfolding consume_round
  consumer_step i p =
      if p.start then if ltb (p.consumed i) event_count then consume_round i p else p else p

  unfoldable pub take_turn : Turn → Program S → Program S
  unfolding main_step consumer_step
  take_turn main_turn p = main_step p.producer p
  take_turn risk_turn p = consumer_step 0 p
  take_turn journal_turn p = consumer_step 1 p

  unfoldable pub take_turns : List Turn → Program S → Program S
  unfolding take_turn
  take_turns [] p = p
  take_turns (t ∷ ts) p = take_turns ts (take_turn t p)

-- The stream is made, and each consumer thread has made its handle.
unfoldable pub launch {κ} : {S : Type κ} → S → Program S
launch s₀ =
    let stream = init no_event ring_capacity 2 0 in
    record {
      stream = stream;
      start = false;
      producer = none;
      published = 0;
      consumers = λ i. make_consumer stream.shared i;
      consumed = λ _. 0;
      states = λ _. s₀;
    }
