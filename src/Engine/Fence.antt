-- ===== src/Engine/Fence.antt =====
-- crates/snaca-engine/src/memory_fence.rs: the incremental scrubber, which takes protected fences out of
-- a stream of text. A text is its UTF-8 bytes; where the source keeps an offset and drains up to it,
-- the model keeps what is left.
mod Search
mod Stable
pub mod Chunks
use snaca.Base.{
  ℕ, zero, suc, ◌+◌, ◌-◌, String, Bool, true, false, not, ◌&&◌, ◌||◌, Option, none, some, List, [],
  ◌∷◌, ◌++◌, ◌==◌, ltb, leb, length, drop, if◌then◌else◌,
}
use snaca.Core.Content.{Text, bytes}
use snaca.Core.Ascii.{starts_ci}

abbrev pub protected_fences : List Text
protected_fences = bytes "memory-context" ∷ bytes "attachments" ∷ []

-- The longest name, the `<` in front and one byte behind.
abbrev pub want : ℕ
want = 16

-- The bytes that may follow the name of a fence: `>`, space, tab, newline, `/`.
abbrev pub ends_name : ℕ → Bool
ends_name b = b == 62 || (b == 32 || (b == 9 || (b == 10 || b == 47)))

-- The text behind the next `>`, and whether a `/` stands in front of that; `prev` is the byte before.
unfoldable pub tag_end : ℕ → Text → Option (Bool × Text)
tag_end prev [] = none
tag_end prev (b ∷ t) = let rest = tag_end b t in if b == 62 then some (prev == 47, t) else rest

-- `OpenClassification`, with what follows the open tag.
pub data OpenClassification : Type 0 where
  not_protected incomplete : OpenClassification
  protected : Text → Text → OpenClassification
  protected_self_closing : Text → OpenClassification

-- What one name of the list says: `skip` is `continue`.
pub data NameVerdict : Type 0 where
  skip hold : NameVerdict
  opens : Text → NameVerdict
  closes_itself : Text → NameVerdict

abbrev pub by_tag_end : Option (Bool × Text) → NameVerdict
by_tag_end none = hold
by_tag_end (some (false, rest)) = opens rest
by_tag_end (some (true, rest)) = closes_itself rest

-- The bytes behind the name; no name ends in `/`, so 0 may stand for the byte before.
abbrev pub behind_name : Text → NameVerdict
behind_name [] = skip
behind_name (b ∷ t) = if ends_name b then by_tag_end (tag_end 0 (b ∷ t)) else skip

-- One round of the loop over the names, on the text behind `<`.
unfoldable pub try_name : Text → Text → NameVerdict
unfolding tag_end
try_name name t =
    if leb (length t) (length name)
    then (if starts_ci name t then hold else skip)
    else if not (starts_ci t name)
    then skip
    else behind_name (drop (length name) t)

abbrev pub or_next : Text → NameVerdict → OpenClassification → OpenClassification
or_next name skip next = next
or_next name hold next = incomplete
or_next name (opens rest) next = protected name rest
or_next name (closes_itself rest) next = protected_self_closing rest

unfoldable pub try_names : List Text → Text → OpenClassification
unfolding try_name
try_names [] t = if ltb (length t + 1) want then incomplete else not_protected
try_names (name ∷ names) t = or_next name (try_name name t) (try_names names t)

-- `classify_open` on the text behind `<`.
unfoldable pub classify_open : Text → OpenClassification
unfolding try_names
classify_open [] = incomplete
classify_open (b ∷ t) = if b == 47 then not_protected else try_names protected_fences (b ∷ t)

-- `find_close_tag`: what follows the first close tag.
unfoldable pub after_close : Text → Text → Option Text
after_close close [] = none
after_close close (b ∷ t) =
    let rest = after_close close t in
    if starts_ci (b ∷ t) close then some (drop (length close) (b ∷ t)) else rest

-- `held_tail_overlap`: the longest proper beginning of the close tag that the text ends in.
unfoldable pub tail_overlap : Text → Text → Text
tail_overlap close [] = []
tail_overlap close (b ∷ t) =
    let shorter = tail_overlap close t in
    if ltb (length (b ∷ t)) (length close) && starts_ci close (b ∷ t) then b ∷ t else shorter

abbrev pub close_tag : Text → Text
close_tag name = bytes "</" ++ name ++ bytes ">"

pub record StreamingScrubber : Type 0 where
  pub held : Text
  pub inside : Option Text

abbrev pub new : StreamingScrubber
new = record { held = []; inside = none }

-- What a round of the loop in `push` does: it returns or goes on, with what it has put out.
pub data Round : Type 0 where
  stop go : Text → StreamingScrubber → Round

-- What comes before the first `<`, and what follows it.
unfoldable pub before_lt : Text → Text
before_lt [] = []
before_lt (b ∷ t) = let rest = before_lt t in if b == 60 then [] else b ∷ rest

unfoldable pub after_lt : Text → Option Text
after_lt [] = none
after_lt (b ∷ t) = let rest = after_lt t in if b == 60 then some t else rest

abbrev pub on_open : Text → Text → OpenClassification → Round
on_open out t not_protected = go (out ++ 60 ∷ []) (record { held = t; inside = none })
on_open out t incomplete = stop out (record { held = 60 ∷ t; inside = none })
on_open out t (protected name rest) = go out (record { held = rest; inside = some name })
on_open out t (protected_self_closing rest) = go out (record { held = rest; inside = none })

-- Outside a block. Without a `<` all is forwarded, since then no `<` is at the end either.
abbrev pub on_lt : Text → Option Text → Round
on_lt out none = stop out (record { held = []; inside = none })
on_lt out (some t) = on_open out t (classify_open t)

-- Inside a block.
abbrev pub on_close : Text → Text → Option Text → Round
on_close name held none =
    stop [] (record { held = tail_overlap (close_tag name) held; inside = some name })
on_close name held (some rest) = go [] (record { held = rest; inside = none })

unfoldable pub round : Text → Option Text → Round
unfolding classify_open after_close tail_overlap before_lt after_lt
round held (some name) = on_close name held (after_close (close_tag name) held)
round held none = on_lt (before_lt held) (after_lt held)

-- A round puts its output in front of the later ones'.
abbrev pub prepend : Text → Text × StreamingScrubber → Text × StreamingScrubber
prepend out (later, s) = (out ++ later, s)

abbrev pub next_round :
    Round → (StreamingScrubber → Text × StreamingScrubber) → Text × StreamingScrubber
next_round (stop out s) rest = (out, s)
next_round (go out s) rest = prepend out (rest s)

-- The loop; a round that goes on has shortened the text, so fuel beyond its length is enough.
unfoldable pub scan : ℕ → StreamingScrubber → Text × StreamingScrubber
unfolding round
scan zero s = ([], s)
scan (suc fuel) s = next_round (round s.held s.inside) (scan fuel)

unfoldable pub push : StreamingScrubber → Text → Text × StreamingScrubber
unfolding scan
push s chunk = let held = s.held ++ chunk in scan (suc (length held)) (record s { held = held })

abbrev flush_out : Option Text → Text → Text
flush_out (some name) held = []
flush_out none held = held

unfoldable pub flush : StreamingScrubber → Text × StreamingScrubber
flush s = (flush_out s.inside s.held, new)

-- A stream's chunks through one scrubber, and the flush.
unfoldable pub scrub_from : StreamingScrubber → List Text → Text
unfolding push flush
scrub_from s [] = (flush s).0
scrub_from s (chunk ∷ chunks) = let (out, s') = push s chunk in out ++ scrub_from s' chunks
