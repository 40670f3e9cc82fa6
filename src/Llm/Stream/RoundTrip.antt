-- ===== src/Llm/Stream/RoundTrip.antt =====
-- `StreamAccumulator` undoes `synthesize_events` (crates/snaca-llm/src/stream.rs).
use mathlib.Core.List.{foldl-append}
use snaca.Base.{
  ℕ, ◌+◌, ◌^◌, ◌<◌, ◌≤◌, String, Option, none, some, List, [], ◌∷◌, ◌++◌, ◌≡◌, refl, sym, ap, ◌∙◌,
  arith, length, append_assoc, append-nil,
}
use snaca.Core.Content.{ContentBlock, text, thinking, tool_use, tool_result, image, assistant}
use snaca.Llm.Error.{ok}
use snaca.Llm.Json.{Json, ReadsBack}
use snaca.Llm.Response.{StopReason, MessageResponse}
use snaca.Llm.Stream.Blocks.{BlockMap, update, IsBelow, insert-last, update-last, IsBelow-snoc}
use snaca.Llm.Stream.{
  StreamAccumulator, StreamEvent, PartialBlock, ContentBlockStart, text_start, thinking_start,
  tool_use_start, ContentDelta, text_delta, thinking_delta, tool_input_json, content_block_start,
  content_block_delta, content_block_stop, message_delta, message_stop, text_part, thinking_part,
  tool_use_part, from_start, ingest_delta, new, ingest, ingest_all, u32, events_from,
  synthesize_events, collect_blocks, finalize, finish,
}

module _ (json : Json) where
  open json use {Value, to_string, from_str}

  -- What a stream keeps of a response's content: the blocks that an assistant sends, without the
  -- signatures of thinking blocks.
  abbrev pub streamed : List (ContentBlock Value) → List (ContentBlock Value)
  streamed [] = []
  streamed (text t ∷ content) = text t ∷ streamed content
  streamed (thinking t signature ∷ content) = thinking t none ∷ streamed content
  streamed (tool_use id name input ∷ content) = tool_use id name input ∷ streamed content
  streamed (tool_result id body is_error ∷ content) = streamed content
  streamed (image source ∷ content) = streamed content

  -- The inputs of the tool calls are read back from their texts.
  abbrev pub InputsReadBack : List (ContentBlock Value) → Type 0
  InputsReadBack [] = Unit
  InputsReadBack (tool_use id name input ∷ content) = ReadsBack json input × InputsReadBack content
  InputsReadBack (block ∷ content) = InputsReadBack content

  -- The entries that the events of `content` leave in the map.
  parts_from : ℕ → List (ContentBlock Value) → BlockMap PartialBlock
  parts_from idx [] = []
  parts_from idx (text t ∷ content) = (idx, text_part t) ∷ parts_from (idx + 1) content
  parts_from idx (thinking t signature ∷ content) =
      (idx, thinking_part t none) ∷ parts_from (idx + 1) content
  parts_from idx (tool_use id name input ∷ content) =
      (idx, tool_use_part id name (to_string input)) ∷ parts_from (idx + 1) content
  parts_from idx (tool_result id body is_error ∷ content) = parts_from (idx + 1) content
  parts_from idx (image source ∷ content) = parts_from (idx + 1) content

  collect-parts_from :
      (stop_reason : Option StopReason) (idx : ℕ) (content : List (ContentBlock Value))
      → InputsReadBack content
      → collect_blocks json stop_reason (parts_from idx content) ≡ ok (streamed content)
  unfolding collect_blocks parts_from
  collect-parts_from s idx [] h = refl
  collect-parts_from s idx (text t ∷ content) h =
      ground (arith, collect-parts_from s (idx + 1) content h)
  collect-parts_from s idx (thinking t g ∷ content) h =
      ground (arith, collect-parts_from s (idx + 1) content h)
  collect-parts_from s idx (tool_use i n v ∷ content) h =
      rw h.0.1 (rw h.0.0 (ground (arith, collect-parts_from s (idx + 1) content h.1)))
  collect-parts_from s idx (tool_result i b e ∷ content) h =
      collect-parts_from s (idx + 1) content h
  collect-parts_from s idx (image x ∷ content) h = collect-parts_from s (idx + 1) content h

  -- Start, one delta and stop of a block behind all others.
  ingest_block :
      (acc : StreamAccumulator) (idx : ℕ) (start : ContentBlockStart) (delta : ContentDelta)
      → idx < 2 ^ 32
      → IsBelow idx acc.blocks
      → ingest_all acc (
          content_block_start (u32 idx) start
          ∷ content_block_delta (u32 idx) delta
          ∷ content_block_stop (u32 idx)
          ∷ [])
        ≡ record acc { blocks = acc.blocks ++ (idx, ingest_delta delta (from_start start)) ∷ [] }
  unfolding ingest
  ingest_block acc idx start delta b h =
      let e : u32 idx ≡ idx = omega arith in
      rw e (
        ap (λ m. record acc { blocks = m })
          (ap (update idx (ingest_delta delta)) (insert-last idx (from_start start) acc.blocks h)
            ∙ update-last idx (from_start start) (ingest_delta delta) acc.blocks h))

  -- One block, and then the others.
  ingest_block_then :
      (acc : StreamAccumulator) (idx : ℕ) (content : List (ContentBlock Value))
      (start : ContentBlockStart) (delta : ContentDelta)
      → idx < 2 ^ 32
      → IsBelow idx acc.blocks
      → ((acc' : StreamAccumulator)
          → IsBelow (idx + 1) acc'.blocks
          → ingest_all acc' (events_from json (idx + 1) content)
            ≡ record acc' { blocks = acc'.blocks ++ parts_from (idx + 1) content })
      → ingest_all acc (
          content_block_start (u32 idx) start
          ∷ content_block_delta (u32 idx) delta
          ∷ content_block_stop (u32 idx)
          ∷ events_from json (idx + 1) content)
        ≡ record acc {
          blocks =
              acc.blocks
              ++ ((idx, ingest_delta delta (from_start start)) ∷ parts_from (idx + 1) content);
        }
  ingest_block_then acc idx content start delta b h rest =
      let entry : List (ℕ × PartialBlock) = (idx, ingest_delta delta (from_start start)) ∷ [] in
      ap (λ a. ingest_all a (events_from json (idx + 1) content))
        (ingest_block acc idx start delta b h)
      ∙ rest (record acc { blocks = acc.blocks ++ entry })
          (IsBelow-snoc idx (ingest_delta delta (from_start start)) acc.blocks h)
      ∙ ap (λ m. record acc { blocks = m })
          (append_assoc acc.blocks entry (parts_from (idx + 1) content))

  IsBelow-suc : (idx : ℕ) (m : BlockMap PartialBlock) → IsBelow idx m → IsBelow (idx + 1) m
  IsBelow-suc idx [] h = tt
  IsBelow-suc idx (e ∷ m) h = (omega (arith, h.0), IsBelow-suc idx m h.1)

  -- The events of `content` put its entries behind what the map holds, and change nothing else.
  ingest_all-events_from :
      (acc : StreamAccumulator) (idx : ℕ) (content : List (ContentBlock Value))
      → idx + length content ≤ 2 ^ 32
      → IsBelow idx acc.blocks
      → ingest_all acc (events_from json idx content)
        ≡ record acc { blocks = acc.blocks ++ parts_from idx content }
  unfolding events_from parts_from ingest_delta
  ingest_all-events_from acc idx [] b h =
      ap (λ m. record acc { blocks = m }) (sym (append-nil acc.blocks))
  ingest_all-events_from acc idx (text t ∷ content) b h =
      ingest_block_then acc idx content text_start (text_delta t) (omega arith) h
        (λ acc' k. ingest_all-events_from acc' (idx + 1) content (omega arith) k)
  ingest_all-events_from acc idx (thinking t g ∷ content) b h =
      ingest_block_then acc idx content thinking_start (thinking_delta t) (omega arith) h
        (λ acc' k. ingest_all-events_from acc' (idx + 1) content (omega arith) k)
  ingest_all-events_from acc idx (tool_use i n v ∷ content) b h =
      ingest_block_then acc idx content (tool_use_start i n) (tool_input_json (to_string v))
        (omega arith) h (λ acc' k. ingest_all-events_from acc' (idx + 1) content (omega arith) k)
  ingest_all-events_from acc idx (tool_result i x e ∷ content) b h =
      ingest_all-events_from acc (idx + 1) content (omega arith) (IsBelow-suc idx acc.blocks h)
  ingest_all-events_from acc idx (image x ∷ content) b h =
      ingest_all-events_from acc (idx + 1) content (omega arith) (IsBelow-suc idx acc.blocks h)

  -- A response that is synthesised into events and collapsed again comes back, with the blocks that
  -- a stream keeps; `new_id` and `now` are the new message's id and time. The indices of its
  -- blocks have to fit 32 bits, and the inputs of its tool calls have to be read back from the texts
  -- they print as, which are not blank.
  pub finalize-synthesize_events :
      (new_id : String) (now : ℕ) (resp : MessageResponse Value)
      → length resp.message.content ≤ 2 ^ 32
      → InputsReadBack resp.message.content
      → finalize json new_id now (ingest_all new (synthesize_events json resp))
        ≡ ok (record {
          id = resp.id;
          message = record {
            id = new_id;
            role = assistant;
            content = streamed resp.message.content;
            created_at = now;
          };
          usage = resp.usage;
          stop_reason = resp.stop_reason;
        })
  unfolding finalize synthesize_events ingest
  finalize-synthesize_events new_id now resp b reads =
      let acc : StreamAccumulator = record new { message_id = some resp.id } in
      let last : List StreamEvent =
        message_delta (some resp.stop_reason) (some resp.usage) ∷ message_stop ∷ [] in
      ap (finalize json new_id now)
        (foldl-append ingest acc (events_from json 0 resp.message.content) last)
      ∙ ap (λ a. finalize json new_id now (ingest_all a last))
          (ingest_all-events_from acc 0 resp.message.content (omega arith) tt)
      ∙ ap
          (finish json new_id now (record acc {
            blocks = parts_from 0 resp.message.content;
            stop_reason = some resp.stop_reason;
            usage = some resp.usage;
          }))
          (collect-parts_from (some resp.stop_reason) 0 resp.message.content reads)
