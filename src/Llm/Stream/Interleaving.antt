-- ===== src/Llm/Stream/Interleaving.antt =====
-- `StreamAccumulator::ingest` (crates/snaca-llm/src/stream.rs) on events of several blocks in any order,
-- and on errors.
use mathlib.Core.List.{foldl}
use mathlib.Core.Option
use snaca.Base.{
  ℕ, String, Bool, false, Option, none, some, List, [], ◌∷◌, ◌≡◌, refl, sym, ap, ◌∙◌, arith, ◌==◌,
  select, if◌then◌else◌, Bool-cases, inl, inr,
}
use snaca.Core.Content.{Text, bytes}
use snaca.Llm.Error.{provider, err}
use snaca.Llm.Json.{Json}
use snaca.Llm.Stream.Blocks.{get, get-insert, get-update}
use snaca.Llm.Stream.{
  StreamAccumulator, StreamEvent, PartialBlock, message_start, content_block_start,
  content_block_delta, content_block_stop, message_delta, message_stop, error, from_start,
  ingest_delta, new, ingest, ingest_all, finalize, or_keep,
}

-- The events that name the block `index`.
abbrev pub concerns : ℕ → StreamEvent → Bool
concerns index (content_block_start i start) = i == index
concerns index (content_block_delta i delta) = i == index
concerns index (content_block_stop i) = i == index
concerns index _ = false

-- One event, as the block `index` sees it.
abbrev block_step : ℕ → Option PartialBlock → StreamEvent → Option PartialBlock
block_step index b (content_block_start i start) = if i == index then some (from_start start) else b
block_step index b (content_block_delta i delta) =
    if i == index then Option.map (ingest_delta delta) b else b
block_step index b _ = b

get-ingest :
    (index : ℕ) (acc : StreamAccumulator) (ev : StreamEvent)
    → get index (ingest acc ev).blocks ≡ block_step index (get index acc.blocks) ev
unfolding ingest
get-ingest index acc (message_start id model) = refl
get-ingest index acc (content_block_start i start) =
    get-insert i index (from_start start) acc.blocks
get-ingest index acc (content_block_delta i delta) =
    get-update i index (ingest_delta delta) acc.blocks
get-ingest index acc (content_block_stop i) = refl
get-ingest index acc (message_delta reason usage) = refl
get-ingest index acc message_stop = refl
get-ingest index acc (error message) = refl

get-ingest_all :
    (index : ℕ) (acc : StreamAccumulator) (events : List StreamEvent)
    → get index (ingest_all acc events).blocks
      ≡ foldl (block_step index) (get index acc.blocks) events
get-ingest_all index acc [] = refl
get-ingest_all index acc (ev ∷ events) =
    get-ingest_all index (ingest acc ev) events
    ∙ ap (λ b. foldl (block_step index) b events) (get-ingest index acc ev)

block_step_skip :
    (index : ℕ) (b : Option PartialBlock) (ev : StreamEvent)
    → concerns index ev ≡ false
    → block_step index b ev ≡ b
block_step_skip index b (content_block_start i start) h = rw h
block_step_skip index b (content_block_delta i delta) h = rw h
block_step_skip index b _ h = refl

foldl-concerns :
    (index : ℕ) (b : Option PartialBlock) (events : List StreamEvent)
    → foldl (block_step index) b events
      ≡ foldl (block_step index) b (select (concerns index) events)
foldl-concerns index b [] = refl
foldl-concerns index b (ev ∷ events) = elim (Bool-cases (concerns index ev)) [
  | inl c ↦ rw c (foldl-concerns index (block_step index b ev) events)
  | inr c ↦ rw c (
      ap (λ x. foldl (block_step index) x events) (block_step_skip index b ev c)
      ∙ foldl-concerns index b events)
]

-- A block depends only on its own events, in their order: those of other blocks may come between
-- them in any way.
pub ingest_all-concerns :
    (index : ℕ) (acc : StreamAccumulator) (events : List StreamEvent)
    → get index (ingest_all acc events).blocks
      ≡ get index (ingest_all acc (select (concerns index) events)).blocks
ingest_all-concerns index acc events =
    get-ingest_all index acc events
    ∙ foldl-concerns index (get index acc.blocks) events
    ∙ sym (get-ingest_all index acc (select (concerns index) events))

-- The message of the first error event.
abbrev pub first_error : List StreamEvent → Option Text
first_error [] = none
first_error (error message ∷ events) = some message
first_error (_ ∷ events) = first_error events

error-ingest_all :
    (acc : StreamAccumulator) (events : List StreamEvent)
    → (ingest_all acc events).error ≡ or_keep acc.error (first_error events)
unfolding ingest
error-ingest_all acc [] = ground arith
error-ingest_all acc (message_start id model ∷ events) =
    error-ingest_all (ingest acc (message_start id model)) events
error-ingest_all acc (content_block_start i s ∷ events) =
    error-ingest_all (ingest acc (content_block_start i s)) events
error-ingest_all acc (content_block_delta i d ∷ events) =
    error-ingest_all (ingest acc (content_block_delta i d)) events
error-ingest_all acc (content_block_stop i ∷ events) = error-ingest_all acc events
error-ingest_all acc (message_delta r u ∷ events) =
    error-ingest_all (ingest acc (message_delta r u)) events
error-ingest_all acc (message_stop ∷ events) = error-ingest_all acc events
error-ingest_all acc (error m ∷ events) =
    error-ingest_all (ingest acc (error m)) events ∙ kept acc.error (first_error events)
  where
    kept : (o p : Option Text) → or_keep (or_keep o (some m)) p ≡ or_keep o (some m)
    kept none p = refl
    kept (some x) p = refl

module _ (json : Json) where
  -- A stream with an error event ends in the provider error of the first one, whatever else it holds.
  pub finalize-first_error :
      (new_id : String) (now : ℕ) (events : List StreamEvent) (message : Text)
      → first_error events ≡ some message
      → finalize json new_id now (ingest_all new events)
        ≡ err (provider (bytes "stream_error") message)
  unfolding finalize
  finalize-first_error new_id now events message h = rw (error-ingest_all new events ∙ h)
